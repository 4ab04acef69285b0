-- ===== src/Tests/Request.antt =====
-- handle_request at fixed inputs.
use rabeld.Prelude.{ℕ, ◌+◌, ◌≡◌, refl, true, false, [], ◌∷◌, replicate}
use rabeld.Prelude.Bytes.{memcmp}
use rabeld.Source.{Source}
use rabeld.Resend.{Destination, Resends, request_redundant, find_request}
use rabeld.Route.{BabelRoute}
use rabeld.Route.Metric.{change_smoothing_half_life}
use rabeld.Route.Table.{RouteTable, find_installed_route}
use rabeld.Route.Select.{find_best_route}
use rabeld.Xroute.{find_xroute}
use rabeld.Message.Request.{Responder, SeqnoRequest, Requests, forwarded, handle_request}
use rabeld.Message.Request.Forward.{AllSound, RaisesOnDemand, handle_request-RaisesOnDemand}

abbrev far : Destination
far = record { prefix = replicate 16 1; plen = 64; src_prefix = replicate 16 0; src_plen = 0 }

abbrev source_of : ℕ → Source
source_of n = record {
  prefix = replicate 16 1;
  src_prefix = replicate 16 0;
  id = replicate 8 3;
  plen = 64;
  src_plen = 0;
  seqno = 7;
  metric = 500;
  route_count = 2;
  time = 100;
}

abbrev via : ℕ → BabelRoute
via n = record {
  handle = n;
  src = 1;
  refmetric = 300 + n;
  cost = 96;
  add_metric = 0;
  seqno = 7;
  neigh = n;
  nexthop = replicate 16 n;
  time = 100;
  hold_time = 30;
  smoothed_metric = 400 + n;
  smoothed_metric_time = 100;
  installed = false;
  channels = [];
}

abbrev responder : Responder
responder = record {
  sources = source_of;
  smoothing = record { random = λ t. 0; now = 100; half_life = change_smoothing_half_life 0 };
  now = record { sec = 100; usec = 0 };
  xroutes = [];
  kernel_metric = 0;
  myid = replicate 8 9;
  filters = record { input_filter = λ d i. 0; output_filter = λ d i. 0 };
  calloc = true;
}

-- From the neighbour that the installed route goes through.
abbrev newer_seqno : SeqnoRequest
newer_seqno = record {
  neigh = 2;
  ifp = 1;
  ifindex = 1;
  hello_interval = 400;
  to = far;
  hop_count = 4;
  seqno = 8;
  id = replicate 8 3;
}

abbrev two_routes : Requests
two_routes = record {
  myseqno = 5;
  seqno_time = record { sec = 90; usec = 0 };
  table = record {
    routes = record { head = record (via 2) { installed = true }; rest = via 5 ∷ [] } ∷ [];
    max_route_slots = 8;
  };
  resends = record { to_resend = []; resend_time = record { sec = 0; usec = 0 } };
}

-- The request goes to the other neighbour that has a route.
sent_on : (handle_request responder newer_seqno two_routes).1 ≡ forwarded 5 3 ∷ []
unfolding handle_request find_xroute find_installed_route rabeld.Route.Table.find_route_slot
    rabeld.Slots.find_slot rabeld.Route.Table.route_compare memcmp rabeld.Util.Seqno.seqno_compare
    rabeld.Util.Seqno.seqno_minus request_redundant find_request rabeld.Resend.find_resend
    rabeld.Route.Metric.route_metric find_best_route rabeld.Route.Select.best_of
    rabeld.Route.Select.skip_unacceptable rabeld.Route.Select.route_acceptable
    rabeld.Route.Metric.route_expired rabeld.Route.Select.best_from
sent_on = refl

handle_request-RaisesOnDemand_example :
    AllSound responder newer_seqno two_routes (handle_request responder newer_seqno two_routes).1
    × RaisesOnDemand responder newer_seqno two_routes
        (handle_request responder newer_seqno two_routes).0
handle_request-RaisesOnDemand_example =
    handle_request-RaisesOnDemand responder newer_seqno two_routes
