-- ===== src/Tests/Receive.antt =====
-- update_route and check_xroutes at fixed inputs.
use rabeld.Prelude.{
  ℕ, ◌⊎◌, ◌≡◌, refl, arith, true, false, map, ◌++◌, not, ◌&&◌, ◌==◌, List, [], ◌∷◌, replicate, some,
  none,
}
use rabeld.Prelude.Int.{pos}
use rabeld.Prelude.Bytes.{memcmp}
use rabeld.Util.Prefix.{v6_equal, martian_prefix, zeroes, v4mapped}
use rabeld.Util.Seqno.{seqno_compare}
use rabeld.Source.{Source}
use rabeld.Resend.{Destination}
use rabeld.Config.{Filters}
use rabeld.Config.Matching.{
  finalise_filters, blank_filter, no_result, route_query, filter_match, redistribute_filter,
  do_filter,
}
use rabeld.Config.Matching.First.{matches_any}
use rabeld.Xroute.{
  XrouteTable, same_destination, fill_hole, flush_xroute, add_xroute, find_xroute, make_room,
}
use rabeld.Xroute.Map.{AllDistinct, lookup}
use rabeld.Xroute.Add.{metric_of}
use rabeld.Xroute.Check.{
  KernelRoute, KernelAddr, route_of_address, local_proto, is_exported, check_table, Checked,
  flush_loop, add_loop,
}
use rabeld.Xroute.Check.Exported.{keep_if}
use rabeld.Xroute.Check.Offered.{offer, offers, check_table-lookup}
use rabeld.Xroute.Check.Local.{offer-route_of_address}
use rabeld.Route.{BabelRoute}
use rabeld.Route.Feasible.{update_feasible}
use rabeld.Route.Metric.{change_smoothing_half_life}
use rabeld.Route.Table.{RouteTable, uninstall_route}
use rabeld.Route.Select.{route_feasible}
use rabeld.Route.Consider.{Setting, Effect, kernel}
use rabeld.Route.Update.{Node, Replies}
use rabeld.Route.Receive.{Arrival, SourceHeap, take_over, receive_unknown}
use rabeld.Route.Receive.Unfeasible.{take_over-unfeasible}
use rabeld.Route.Receive.Unknown.{QuietReceived, receive_unknown-Quiet}

abbrev net : ℕ → Destination
net n = record { prefix = replicate 16 n; plen = 128; src_prefix = replicate 16 0; src_plen = 0 }

abbrev sources : ℕ → Source
sources n = record {
  prefix = replicate 16 1;
  src_prefix = replicate 16 0;
  id = replicate 8 n;
  plen = 128;
  src_plen = 0;
  seqno = 7;
  metric = 500;
  route_count = 1;
  time = 100;
}

abbrev setting : Setting
setting = record {
  sources = sources;
  smoothing = record { random = λ t. 0; now = 100; half_life = change_smoothing_half_life 0 };
  now = record { sec = 100; usec = 0 };
  to_resend = [];
  xroutes = [];
  allow_duplicates = none;
}

abbrev filters : Filters
filters = record {
  input_filters = [];
  output_filters = [];
  redistribute_filters = [];
  install_filters = [];
}

abbrev node : Node
node = record {
  setting = setting;
  kernel_metric = 0;
  reflect_kernel_metric = false;
  through = λ n. record { address = replicate 16 n; ifindex = 2; cost = 96 };
  filters = filters;
  keep_unfeasible = true;
  myid = replicate 8 9;
}

abbrev replies : Replies
replies = record { change_ok = true; better_ok = true; considered_ok = true; lost_ok = true }

-- A seqno that the source had before.
abbrev arrival : Arrival
arrival = record {
  update = record {
    id = replicate 8 2;
    prefix = replicate 16 1;
    plen = 128;
    src_prefix = replicate 16 0;
    src_plen = 0;
    seqno = 6;
    metric = 700;
    interval = 400;
    nexthop = replicate 16 1;
    channels = some [];
  };
  neigh = 2;
  channels = [];
  memory = record { calloc = true; realloc = true };
  fresh_source = 20;
  fresh_route = 30;
}

abbrev installed : BabelRoute
installed = record {
  handle = 2;
  src = 2;
  refmetric = 300;
  cost = 96;
  add_metric = 0;
  seqno = 7;
  neigh = 2;
  nexthop = replicate 16 1;
  time = 100;
  hold_time = 30;
  smoothed_metric = 400;
  smoothed_metric_time = 100;
  installed = true;
  channels = [];
}

not_feasible : update_feasible 100 (some (sources 2)) 6 700 ≡ false
unfolding update_feasible seqno_compare
not_feasible = refl

abbrev heap : SourceHeap
heap = record { cells = sources; slots = 2 ∷ []; max_source_slots = 8 }

abbrev empty : RouteTable
empty = record { routes = []; max_route_slots = 0 }

take_over-unfeasible_example :
    let (taken, t', effects) = take_over node replies arrival false 2 installed empty in
    (route_feasible sources 100 taken ≡ false)
    × (taken.seqno ≡ 6)
    × (taken.src ≡ 2)
    × (taken.installed ≡ (true && 2 == 2))
    × ((true && not (2 == 2) ≡ false)
        ⊎ ((asked : List Effect) × (effects
              ≡ map kernel (uninstall_route sources installed empty).1 ++ asked)))
take_over-unfeasible_example =
    take_over-unfeasible node replies arrival 2 installed empty refl (omega arith) not_feasible

receive_unknown-Quiet_example :
    QuietReceived (receive_unknown node replies arrival false 2 heap empty)
receive_unknown-Quiet_example = receive_unknown-Quiet node replies arrival 2 heap empty not_feasible

abbrev kernel_route : ℕ → ℕ → KernelRoute
kernel_route n proto = record { to = net n; proto = proto; gw = zeroes; metric = 0; ifindex = 2 }

abbrev static_ones : Filters
static_ones = record filters {
  redistribute_filters =
      record blank_filter { proto = pos 4; action = record no_result { add_metric = 20 } } ∷ [];
}

abbrev xroutes : XrouteTable
xroutes = record {
  xroutes =
      record { to = net 1; metric = 20; ifindex = 2; proto = 4 }
      ∷ record { to = net 2; metric = 20; ifindex = 2; proto = 4 }
      ∷ [];
  maxxroutes = 8;
}

xroutes_AllDistinct : AllDistinct xroutes.xroutes
unfolding lookup same_destination v6_equal memcmp
xroutes_AllDistinct = (refl, (refl, tt))

abbrev dump : List KernelRoute
dump = kernel_route 1 4 ∷ kernel_route 3 4 ∷ kernel_route 5 3 ∷ []

check_table-lookup_example :
    (r : Checked) × (check_table true static_ones dump xroutes ≡ some r)
    × AllDistinct r.table.xroutes
    × ((d : Destination)
        → metric_of (lookup d r.table.xroutes)
          ≡ offers static_ones dump d
              (metric_of (keep_if (is_exported static_ones dump) (lookup d xroutes.xroutes))))
check_table-lookup_example =
    check_table-lookup static_ones dump xroutes xroutes_AllDistinct (omega arith)

-- The route to 2 has gone, the one to 3 is new, and the one to 5 is of another protocol.
check_run :
    (r : Checked) × (check_table true static_ones dump xroutes ≡ some r)
    × (r.flushed ≡ net 2 ∷ [])
    × (r.added_routes ≡ kernel_route 3 4 ∷ [])
unfolding check_table flush_loop add_loop is_exported redistribute_filter do_filter filter_match
    v6_equal memcmp fill_hole flush_xroute add_xroute find_xroute same_destination martian_prefix
    v4mapped make_room
check_run = (
  record {
    table = record {
      xroutes =
          record { to = net 1; metric = 20; ifindex = 2; proto = 4 }
          ∷ record { to = net 3; metric = 20; ifindex = 2; proto = 4 }
          ∷ [];
      maxxroutes = 8;
    };
    flushed = net 2 ∷ [];
    added_routes = kernel_route 3 4 ∷ [];
  },
  refl,
  refl,
  refl,
)

abbrev address : KernelAddr
address = record { addr = replicate 16 32; ifindex = 2 }

unmatched :
    matches_any static_ones.redistribute_filters
      (route_query (route_of_address address).to.prefix 128 zeroes 0 2 (pos local_proto))
    ≡ false
unfolding filter_match
unmatched = refl

offer-route_of_address_example :
    offer (finalise_filters static_ones) (route_of_address address) ≡ none
offer-route_of_address_example = offer-route_of_address static_ones address unmatched
