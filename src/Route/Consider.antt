-- ===== src/Route/Consider.antt =====
-- route.c: consider_route, which decides whether a route is to be installed.
pub mod Order
use rabeld.Prelude.{
  ℕ, Bool, true, false, ltb, leb, ◌==◌, ◌&&◌, ◌||◌, not, if◌then◌else◌, List, [], ◌∷◌, ◌++◌, map,
  get_or, set, Option, some, none,
}
use rabeld.Util.Timeval.{Timeval}
use rabeld.Slots.{found, absent}
use rabeld.Source.{Source, infinity}
use rabeld.Resend.{Destination, Resend}
use rabeld.Xroute.{Xroute, blank, find_xroute}
use rabeld.Route.{BabelRoute}
use rabeld.Route.Metric.{route_metric}
use rabeld.Route.Table.{
  RouteTable, Chain, Event, destination, nowhere, routes_of, find_route_slot, find_installed_route,
  switch_routes,
}
use rabeld.Route.Select.{Smoothing, route_feasible, after_smoothing}
use rabeld.Route.Announce.{Message, send_update, send_triggered_update}

-- What the decision reads of the other parts; `allow_duplicates` is `none` where it is negative.
pub record Setting : Type 0 where
  pub sources : ℕ → Source
  pub smoothing : Smoothing
  pub now : Timeval
  pub to_resend : List Resend
  pub xroutes : List Xroute
  pub allow_duplicates : Option ℕ

abbrev write_over : BabelRoute → List BabelRoute → List BabelRoute
write_over route [] = []
write_over route (r ∷ rest) =
    if r.handle == route.handle then route ∷ rest else r ∷ write_over route rest

abbrev write_chain : BabelRoute → Chain → Chain
write_chain route c =
    if c.head.handle == route.handle
    then (record c { head = route })
    else (record c { rest = write_over route c.rest })

-- The table after the fields of a route have been changed, at the address where the route stands.
unfoldable pub store : (ℕ → Source) → BabelRoute → RouteTable → RouteTable
store sources route t = elim (find_route_slot sources (destination (sources route.src)) t) [
  | absent n ↦ t
  | found i ↦ record t { routes = set t.routes i (write_chain route (get_or t.routes i nowhere)) }
]

abbrev find_handle : BabelRoute → List BabelRoute → BabelRoute
find_handle route [] = route
find_handle route (r ∷ rest) = if r.handle == route.handle then r else find_handle route rest

-- The route as it now stands at its address.
unfoldable pub load : (ℕ → Source) → BabelRoute → RouteTable → BabelRoute
load sources route t = elim (find_route_slot sources (destination (sources route.src)) t) [
  | absent n ↦ route
  | found i ↦ find_handle route (routes_of (get_or t.routes i nowhere))
]

-- A redistributed route that takes precedence.
unfoldable pub is_shadowed : Setting → Destination → Bool
is_shadowed s d = elim (find_xroute d s.xroutes) [
  | none ↦ false
  | some i ↦ elim (s.allow_duplicates) [
    | none ↦ true
    | some allowed ↦ leb allowed (get_or s.xroutes i blank).metric
  ]
]

-- `stay` is a return, `install` the jump to the label with `installed` and `route`, each with the
-- table: route_smoothed_metric has changed both routes if it was called.
pub data Choice : Type 0 where
  stay : RouteTable → Choice
  install : Option BabelRoute → BabelRoute → RouteTable → Choice

-- The comparison of the smoothed metrics; `old` and `new` are the routes after it.
unfoldable pub choose_smoothed : (ℕ → Source) → BabelRoute → BabelRoute → RouteTable → Choice
choose_smoothed sources old new t =
    let t' : RouteTable = store sources new (store sources old t) in
    if ltb new.smoothed_metric old.smoothed_metric then install (some old) new t' else stay t'

-- Where a route is installed for the destination.
unfoldable pub choose_between : Setting → BabelRoute → BabelRoute → RouteTable → Choice
choose_between s old new t =
    if leb infinity (route_metric new)
    then stay t
    else (if leb infinity (route_metric old)
        then install (some old) new t
        else (if leb (route_metric new) (route_metric old)
            then choose_smoothed s.sources (after_smoothing s.smoothing old)
                (after_smoothing s.smoothing new) t
            else stay t))

unfoldable pub choose : Setting → BabelRoute → RouteTable → Choice
choose s route t =
    let d : Destination = destination (s.sources route.src) in
    if route.installed
    then stay t
    else (if not (route_feasible s.sources s.smoothing.now route)
        then stay t
        else (if is_shadowed s d then stay t else elim (find_installed_route s.sources d t) [
          | none ↦ install none route t
          | some old ↦ choose_between s old route t
        ]))

pub data Effect : Type 0 where
  kernel : Event → Effect
  announce : Message → Effect
  send_request_resend : Destination → ℕ → List ℕ → Effect

-- What is sent after switch_routes. `new` is the route as it stands then.
unfoldable pub announcement : Setting → Option BabelRoute → BabelRoute → List Message
announcement s none new = send_update 1 (destination (s.sources new.src)) ∷ []
announcement s (some old) new =
    if new.installed
    then send_triggered_update s.sources s.now s.to_resend new old.src (route_metric old)
    else send_update 1 (destination (s.sources new.src)) ∷ []

-- `ok` is whether the kernel accepts the change; `none` is a failed assertion of switch_routes.
unfoldable pub consider_route :
    Setting → Bool → BabelRoute → RouteTable → Option (RouteTable × List Effect)
consider_route s ok route t = elim (choose s route t) [
  | stay t' ↦ some (t', [])
  | install old new t' ↦ elim (switch_routes s.sources ok old new t') [
    | none ↦ none
    | some (t'', events) ↦
        some (t'', map kernel events ++ map announce (announcement s old (load s.sources new t'')))
  ]
]
