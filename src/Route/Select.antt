-- ===== src/Route/Select.antt =====
-- route.c: which routes may be used, and the best of them.
pub mod Best
use rabeld.Prelude.{
  ℕ, zero, suc, Bool, true, false, ltb, ◌==◌, ◌&&◌, ◌||◌, not, if◌then◌else◌, List, [], ◌∷◌, map,
  get_or, set, Option, some, none,
}
use rabeld.Prelude.Int.{ℤ, pos, negsuc, pos_part, neg_part}
use rabeld.Slots.{found, absent}
use rabeld.Source.{Source}
use rabeld.Resend.{Destination}
use rabeld.Interface.{Interface}
use rabeld.Route.{BabelRoute}
use rabeld.Route.Feasible.{update_feasible}
use rabeld.Route.Metric.{route_expired, HalfLife, route_smoothed_metric}
use rabeld.Route.Table.{Chain, RouteTable, nowhere, routes_of, find_route_slot}

unfoldable pub route_feasible : (ℕ → Source) → ℕ → BabelRoute → Bool
route_feasible sources now route =
    update_feasible now (some (sources route.src)) route.seqno route.refmetric

-- `exclude` is the address of a neighbour, `none` for NULL.
unfoldable pub route_acceptable : (ℕ → Source) → ℕ → Bool → Option ℕ → BabelRoute → Bool
route_acceptable sources now feasible exclude route =
    if route_expired now route
    then false
    else (if feasible && not (route_feasible sources now route)
        then false
        else (elim exclude [ none ↦ true | some neigh ↦ not (route.neigh == neigh) ]))

abbrev same_channel : ℤ → ℤ → Bool
same_channel a b = pos_part a == pos_part b && neg_part a == neg_part b

-- IF_CHANNEL_NONINTERFERING and IF_CHANNEL_INTERFERING
abbrev pub noninterfering : ℤ
noninterfering = negsuc 1

abbrev pub interfering : ℤ
interfering = pos 255

unfoldable pub channels_interfere : ℤ → ℤ → Bool
channels_interfere ch1 ch2 =
    if same_channel ch1 noninterfering || same_channel ch2 noninterfering
    then false
    else (if same_channel ch1 interfering || same_channel ch2 interfering
        then true
        else same_channel ch1 ch2)

pub data Diversity : Type 0 where
  diversity_none diversity_interface_1 diversity_channel_1 diversity_channel : Diversity

-- The loop over the channels that a route has passed.
abbrev pub any_interferes : ℤ → List ℕ → Bool
any_interferes channel [] = false
any_interferes channel (c ∷ rest) =
    not (c == 0) && channels_interfere channel (pos c) || any_interferes channel rest

-- `through` is the interface of the route's neighbour. `ifp` is the same one if its index is.
unfoldable pub route_interferes : Diversity → BabelRoute → Interface → Interface → Bool
route_interferes diversity_none route through ifp = true
route_interferes diversity_interface_1 route through ifp = through.ifindex == ifp.ifindex
route_interferes diversity_channel_1 route through ifp =
    if through.ifindex == ifp.ifindex then true else channels_interfere ifp.channel through.channel
route_interferes diversity_channel route through ifp =
    if through.ifindex == ifp.ifindex
    then true
    else (if channels_interfere ifp.channel through.channel
        then true
        else any_interferes ifp.channel route.channels)

-- The first loop of find_best_route.
unfoldable pub skip_unacceptable : (BabelRoute → Bool) → List BabelRoute → List BabelRoute
skip_unacceptable acceptable [] = []
skip_unacceptable acceptable (r ∷ rest) =
    if acceptable r then r ∷ rest else skip_unacceptable acceptable rest

-- The second loop, with its variable `route`; `value` is what route_smoothed_metric returns for a
-- route within this second (Route/Metric/Again.antt).
unfoldable pub best_from :
    (BabelRoute → Bool) → (BabelRoute → ℕ) → BabelRoute → List BabelRoute → BabelRoute
best_from acceptable value route [] = route
best_from acceptable value route (r ∷ rest) =
    best_from acceptable value (if acceptable r && ltb (value r) (value route) then r else route)
      rest

unfoldable pub best_of :
    (BabelRoute → Bool) → (BabelRoute → ℕ) → List BabelRoute → Option BabelRoute
best_of acceptable value routes = elim (skip_unacceptable acceptable routes) [
  | [] ↦ none
  | r ∷ rest ↦ some (best_from acceptable value r rest)
]

-- The random numbers, the clock and the half-life that route_smoothed_metric reads.
pub record Smoothing : Type 0 where
  pub random : ℕ → ℕ
  pub now : ℕ
  pub half_life : HalfLife

-- A route after route_smoothed_metric; with a half-life of 3 seconds or more there is always one
-- (Route/Metric/Smooth.antt).
abbrev pub after_smoothing : Smoothing → BabelRoute → BabelRoute
after_smoothing s r = elim (route_smoothed_metric s.random s.now s.half_life r) [
  | none ↦ r
  | some r' ↦ r'
]

abbrev pub smoothed_value : Smoothing → BabelRoute → ℕ
smoothed_value s r = (after_smoothing s r).smoothed_metric

abbrev pub any_of : (BabelRoute → Bool) → List BabelRoute → Bool
any_of p [] = false
any_of p (r ∷ rest) = p r || any_of p rest

-- The routes of a chain that have been compared, which are the acceptable ones if there are two, are
-- smoothed where they stand.
unfoldable pub smooth_compared : Smoothing → (BabelRoute → Bool) → Chain → Chain
smooth_compared s acceptable c =
    let after : BabelRoute → BabelRoute = λ r. if acceptable r then after_smoothing s r else r in
    elim (skip_unacceptable acceptable (routes_of c)) [
      | [] ↦ c
      | r ∷ rest ↦
          if any_of acceptable rest
          then (record { head = after c.head; rest = map after c.rest })
          else c
    ]

-- The route is returned as it stood before the call.
unfoldable pub find_best_route :
    (ℕ → Source)
    → Smoothing
    → Destination
    → Bool
    → Option ℕ
    → RouteTable
    → RouteTable × Option BabelRoute
find_best_route sources s d feasible exclude t = elim (find_route_slot sources d t) [
  | absent n ↦ (t, none)
  | found i ↦
      let c : Chain = get_or t.routes i nowhere in
      let acceptable : BabelRoute → Bool = route_acceptable sources s.now feasible exclude in
      (
        record t { routes = set t.routes i (smooth_compared s acceptable c) },
        best_of acceptable (smoothed_value s) (routes_of c),
      )
]
