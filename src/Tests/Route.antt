-- ===== src/Tests/Route.antt =====
-- route.c at fixed inputs.
use rabeld.Prelude.{ℕ, ◌/◌, ◌≡◌, refl, arith, true, false, [], ◌∷◌, replicate, some, none}
use rabeld.Source.{Source}
use rabeld.Prelude.Bytes.{memcmp}
use rabeld.Slots.{find_slot, search_loop, insert_at}
use rabeld.Route.{BabelRoute}
use rabeld.Route.Metric.{
  route_metric, change_smoothing_half_life, route_smoothed_metric, smooth, halve_loop, decay_loop,
  roughly,
}
use rabeld.Route.Metric.Smooth.{IsBetween, route_smoothed_metric-IsBetween}
use rabeld.Util.Seqno.{seqno_compare}
use rabeld.Route.Feasible.{update_feasible}
use rabeld.Route.Metric.{route_expired}
use rabeld.Route.Select.{
  Smoothing, smoothed_value, find_best_route, route_acceptable, route_feasible, best_of,
  skip_unacceptable, best_from,
}
use rabeld.Route.Select.Best.{IsBest, find_best_route-IsBest}
use rabeld.Util.Timeval.{Timeval}
use rabeld.Route.Table.{
  RouteTable, Chain, destination, route_compare, make_room, find_route_slot, insert_route,
  switch_routes, kswitch_routes, notify_change,
}
use rabeld.Route.Table.Invariant.{IsTable}
use rabeld.Route.Table.Invariant.Insert.{insert_route-IsTable}
use rabeld.Route.Table.Invariant.Remove.{IsRemoved, remove_route-IsTable}
use rabeld.Route.Table.{remove_route, shrink}
use rabeld.Route.Table.Installed.{IsInstalled, switch_routes-IsInstalled}

-- Two sources of the same destination, and one of another.
abbrev sources : ℕ → Source
sources n = record {
  prefix = replicate 16 (n / 2);
  src_prefix = replicate 16 0;
  id = replicate 8 n;
  plen = 128;
  src_plen = 0;
  seqno = 7;
  metric = 500;
  route_count = 1;
  time = 100;
}

abbrev near : BabelRoute
near = record {
  handle = 1;
  src = 2;
  refmetric = 100;
  cost = 96;
  add_metric = 0;
  seqno = 8;
  neigh = 10;
  nexthop = replicate 16 1;
  time = 100;
  hold_time = 30;
  smoothed_metric = 400;
  smoothed_metric_time = 90;
  installed = false;
  channels = [];
}

abbrev far : BabelRoute
far = record near { handle = 2; src = 3; neigh = 11; refmetric = 300 }

abbrev other : BabelRoute
other = record near { handle = 3; src = 4 }

abbrev alone : BabelRoute → Chain
alone r = record { head = r; rest = [] }

abbrev one_slot : RouteTable
one_slot = record { routes = record { head = near; rest = far ∷ [] } ∷ []; max_route_slots = 8 }

abbrev up : BabelRoute → BabelRoute
up r = record r { installed = true }

abbrev one_up : RouteTable
one_up = record { routes = record { head = up near; rest = far ∷ [] } ∷ []; max_route_slots = 8 }

one_slot-IsTable : IsTable sources one_slot
unfolding route_compare memcmp
one_slot-IsTable = record { sorted = (tt, tt); chains = (((refl, tt), (refl, tt)), tt) }

one_up-IsTable : IsTable sources one_up
unfolding route_compare memcmp
one_up-IsTable = record { sorted = (tt, tt); chains = (((refl, tt), (refl, tt)), tt) }

-- A route to another destination goes to a slot of its own, in the order of the prefixes.
other_slot :
    (insert_route sources true other one_slot).0.routes
    ≡ record { head = near; rest = far ∷ [] } ∷ alone other ∷ []
unfolding insert_route find_route_slot find_slot search_loop route_compare memcmp insert_at
    make_room
other_slot = refl

-- With a half-life of 2 seconds the product of a route that comes back from a retraction overflows.
smoothed_overflow :
    route_smoothed_metric
      (λ t. 32000)
      101
      (change_smoothing_half_life 2)
      (record near { smoothed_metric = 65535; smoothed_metric_time = 100 })
    ≡ none
unfolding route_smoothed_metric route_metric smooth change_smoothing_half_life halve_loop decay_loop
    roughly
smoothed_overflow = refl

route_smoothed_metric-IsBetween_example :
    (route' : BabelRoute) × (route_smoothed_metric (λ t. t) 101 (change_smoothing_half_life 4) near
      ≡ some route')
    × IsBetween (route_metric near) 400 route'.smoothed_metric
    × (route'.smoothed_metric_time ≡ 101)
route_smoothed_metric-IsBetween_example =
    route_smoothed_metric-IsBetween (λ t. t) 101 4 near (ground arith) (ground arith)

insert_route-IsTable_example : IsTable sources (insert_route sources true other one_slot).0
insert_route-IsTable_example =
    insert_route-IsTable sources true other one_slot one_slot-IsTable refl

switch_routes-IsInstalled_example :
    (t' : RouteTable) × (switch_routes sources true (some (up near)) far one_up
      ≡ some (t', kswitch_routes 1 2 ∷ notify_change 1 ∷ notify_change 2 ∷ []))
    × IsTable sources t'
    × IsInstalled sources far t'
unfolding find_route_slot find_slot search_loop route_compare memcmp
switch_routes-IsInstalled_example =
    switch_routes-IsInstalled sources (up near) far one_up 0 one_up-IsTable refl refl refl

abbrev now_100 : Timeval
now_100 = record { sec = 100; usec = 0 }

abbrev smoothing : Smoothing
smoothing = record { random = λ t. t; now = 101; half_life = change_smoothing_half_life 4 }

-- The nearer route is the better one.
best_is_near :
    (find_best_route sources smoothing (destination (sources 2)) true none one_slot).1 ≡ some near
unfolding find_best_route find_route_slot find_slot search_loop route_compare memcmp best_of
    skip_unacceptable best_from route_acceptable route_expired route_feasible update_feasible
    seqno_compare route_smoothed_metric route_metric smooth change_smoothing_half_life halve_loop
    decay_loop roughly
best_is_near = refl

find_best_route-IsBest_example :
    IsBest
      (route_acceptable sources 101 true none)
      (smoothed_value smoothing)
      (near ∷ far ∷ [])
      (find_best_route sources smoothing (destination (sources 2)) true none one_slot).1
unfolding find_route_slot find_slot search_loop route_compare memcmp
find_best_route-IsBest_example =
    find_best_route-IsBest sources smoothing (destination (sources 2)) true none one_slot 0 refl

abbrev lost_route : BabelRoute
lost_route = record near { installed = true; refmetric = 65535; cost = 65535 }

abbrev near_removed : RouteTable
near_removed = record { routes = alone far ∷ []; max_route_slots = 8 }

remove_route-IsTable_example :
    IsTable sources near_removed × IsRemoved sources near one_slot near_removed
unfolding remove_route shrink find_route_slot find_slot search_loop route_compare memcmp
remove_route-IsTable_example =
    remove_route-IsTable sources true near one_slot one_slot-IsTable near_removed refl
