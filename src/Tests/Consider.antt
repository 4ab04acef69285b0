-- ===== src/Tests/Consider.antt =====
-- consider_route and xroute.c at fixed inputs.
use rabeld.Prelude.{
  ℕ, ◌≡◌, refl, arith, true, false, [], ◌∷◌, replicate, some, none, if◌then◌else◌, get_or,
}
use rabeld.Prelude.Bytes.{memcmp}
use rabeld.Util.Prefix.{v6_equal}
use rabeld.Util.Seqno.{seqno_compare}
use rabeld.Source.{Source}
use rabeld.Resend.{Destination}
use rabeld.Slots.{found, find_slot, search_loop}
use rabeld.Xroute.{
  Xroute, XrouteTable, same_destination, find_xroute, flush_xroute, add_xroute, blank, notify_flush,
  fill_hole,
}
use rabeld.Xroute.Map.{AllDistinct, lookup}
use rabeld.Xroute.Flush.{flush_xroute-lookup}
use rabeld.Xroute.Add.{KeepsMap, add_xroute-IsAdded}
use rabeld.Route.{BabelRoute}
use rabeld.Route.Feasible.{update_feasible}
use rabeld.Route.Metric.{route_metric, route_smoothed_metric, change_smoothing_half_life}
use rabeld.Route.Table.{
  destination, RouteTable, find_installed_route, find_route_slot, route_compare,
}
use rabeld.Route.Select.{route_feasible}
use rabeld.Prelude.{Ordering}
use rabeld.Prelude.Order.{flip, Fits}
use rabeld.Message.Updates.{
  BufferedUpdate, compare_buffered_updates, IsSameUpdate, compare_buffered_updates_lem,
}
use rabeld.Route.Table.{routes_of, nowhere}
use rabeld.Route.Metric.{route_expired}
use rabeld.Route.Select.{
  find_best_route, smooth_compared, best_of, skip_unacceptable, best_from, route_acceptable,
  smoothed_value,
}
use rabeld.Route.Select.Best.{IsBest}
use rabeld.Route.Change.{route_lost, route_lost-IsBest}
use rabeld.Route.Consider.{
  consider_route, load, Setting, choose, choose_between, choose_smoothed, is_shadowed, stay,
}
use rabeld.Route.Consider.Order.{MayInstall, choose-MayInstall, choose-stays}

abbrev net : ℕ → Destination
net n = record { prefix = replicate 16 n; plen = 128; src_prefix = replicate 16 0; src_plen = 0 }

abbrev xroute : ℕ → ℕ → Xroute
xroute n metric = record { to = net n; metric = metric; ifindex = 2; proto = 3 }

abbrev three : XrouteTable
three = record { xroutes = xroute 1 10 ∷ xroute 2 20 ∷ xroute 3 30 ∷ []; maxxroutes = 8 }

three_AllDistinct : AllDistinct three.xroutes
unfolding lookup same_destination v6_equal memcmp
three_AllDistinct = (refl, (refl, (refl, tt)))

abbrev update : ℕ → BufferedUpdate
update n = record { id = replicate 8 5; to = net n }

flush_xroute-lookup_example :
    (t' : XrouteTable) × (flush_xroute true 0 three ≡ some (t', notify_flush 0 ∷ []))
    × AllDistinct t'.xroutes
    × ((d : Destination)
        → lookup d t'.xroutes ≡ (
            if same_destination d (get_or three.xroutes 0 blank).to
            then none
            else lookup d three.xroutes))
flush_xroute-lookup_example = flush_xroute-lookup true 0 three three_AllDistinct (omega arith)

-- The last element goes to the place of the first.
flush_run :
    (t' : XrouteTable) × (flush_xroute true 0 three ≡ some (t', notify_flush 0 ∷ []))
    × (t'.xroutes ≡ xroute 3 30 ∷ xroute 2 20 ∷ [])
unfolding flush_xroute fill_hole
flush_run = (record { xroutes = xroute 3 30 ∷ xroute 2 20 ∷ []; maxxroutes = 8 }, refl, refl)

add_xroute-IsAdded_example :
    KeepsMap (net 2) 15 three three_AllDistinct (add_xroute true (net 2) 15 2 3 three)
add_xroute-IsAdded_example = add_xroute-IsAdded true (net 2) 15 2 3 three three_AllDistinct

abbrev sources : ℕ → Source
sources n = record {
  prefix = replicate 16 1;
  src_prefix = replicate 16 0;
  id = replicate 8 n;
  plen = 128;
  src_plen = 0;
  seqno = 7;
  metric = 500;
  route_count = 1;
  time = 100;
}

abbrev route : ℕ → ℕ → BabelRoute
route handle refmetric = record {
  handle = handle;
  src = handle;
  refmetric = refmetric;
  cost = 96;
  add_metric = 0;
  seqno = 8;
  neigh = handle;
  nexthop = replicate 16 1;
  time = 100;
  hold_time = 30;
  smoothed_metric = 400;
  smoothed_metric_time = 100;
  installed = false;
  channels = [];
}

abbrev quiet : Setting
quiet = record {
  sources = sources;
  smoothing = record { random = λ t. 0; now = 100; half_life = change_smoothing_half_life 0 };
  now = record { sec = 100; usec = 0 };
  to_resend = [];
  xroutes = [];
  allow_duplicates = none;
}

abbrev long : BabelRoute
long = record (route 2 300) { installed = true }

abbrev short : BabelRoute
short = route 3 100

abbrev before : RouteTable
before = record { routes = record { head = long; rest = short ∷ [] } ∷ []; max_route_slots = 8 }

abbrev after : RouteTable
after = record {
  routes =
      record {
        head = record short { installed = true; smoothed_metric = 196 };
        rest = record long { installed = false; smoothed_metric = 396 } ∷ [];
      }
      ∷ [];
  max_route_slots = 8;
}

choose-MayInstall_example : MayInstall quiet short before
unfolding choose choose_between choose_smoothed is_shadowed find_xroute route_feasible
    update_feasible seqno_compare find_installed_route find_route_slot find_slot search_loop
    route_compare memcmp route_metric route_smoothed_metric change_smoothing_half_life
choose-MayInstall_example = choose-MayInstall quiet short before tt

choose-stays_example :
    (t'' : RouteTable) × (choose quiet
        (record long { installed = false; smoothed_metric = 396 })
        after
      ≡ stay t'')
unfolding choose choose_between choose_smoothed is_shadowed find_xroute route_feasible
    update_feasible seqno_compare find_installed_route find_route_slot find_slot search_loop
    route_compare memcmp route_metric route_smoothed_metric change_smoothing_half_life
choose-stays_example =
    choose-stays quiet long short before after refl refl (ground arith) refl refl tt refl

route_lost-IsBest_example :
    (i : ℕ) × (best : BabelRoute) × (find_route_slot sources (destination (sources 3)) after
      ≡ found i)
    × IsBest
        (route_acceptable sources 100 true none)
        (smoothed_value quiet.smoothing)
        (routes_of (get_or after.routes i nowhere))
        (some best)
unfolding route_lost consider_route find_best_route smooth_compared best_of skip_unacceptable
    best_from route_acceptable route_expired load choose choose_between choose_smoothed is_shadowed
    find_xroute route_feasible update_feasible seqno_compare find_installed_route find_route_slot
    find_slot search_loop route_compare memcmp route_metric route_smoothed_metric
    change_smoothing_half_life
route_lost-IsBest_example =
    route_lost-IsBest quiet true (sources 3) 300 after after (omega arith) refl

compare_buffered_updates_lem_example :
    (compare_buffered_updates (update 2) (update 1)
      ≡ flip (compare_buffered_updates (update 1) (update 2)))
    × Fits
        (compare_buffered_updates (update 1) (update 2))
        (compare_buffered_updates (update 2) (update 3))
        (compare_buffered_updates (update 1) (update 3))
    × (compare_buffered_updates (update 1) (update 2) ≡ Ordering.eq
        → IsSameUpdate (update 1) (update 2))
compare_buffered_updates_lem_example = compare_buffered_updates_lem (update 1) (update 2) (update 3)
