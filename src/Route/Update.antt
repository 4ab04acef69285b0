-- ===== src/Route/Update.antt =====
-- route.c: changes of a route's metric, and the end of a route.
use rabeld.Prelude.{
  ℕ, ◌+◌, ◌%◌, ◌^◌, Bool, ltb, ◌==◌, ◌&&◌, not, if◌then◌else◌, min, List, [], ◌∷◌, ◌++◌, map,
  Option, some, none,
}
use rabeld.Prelude.Int.{pos, pos_part}
use rabeld.Util.Seqno.{seqno_plus}
use rabeld.Source.{Source, infinity, release_source}
use rabeld.Config.{Filters}
use rabeld.Config.Matching.{input_filter}
use rabeld.Route.{BabelRoute}
use rabeld.Route.Metric.{route_metric, metric_to_kernel, route_expired}
use rabeld.Route.Table.{
  RouteTable, notify_change, notify_flush, kchange_route_metric, uninstall_route, remove_route,
}
use rabeld.Route.Select.{after_smoothing}
use rabeld.Route.Consider.{Setting, Effect, kernel, store}
use rabeld.Route.Change.{route_changed, route_lost}

-- What is read of a neighbour and its interface; `cost` is what neighbour_cost returns for it now
-- (Neighbour/Cost.antt).
pub record Through : Type 0 where
  pub address : List ℕ
  pub ifindex : ℕ
  pub cost : ℕ

-- What these functions read. `through` gives a neighbour by its address.
pub record Node : Type 0 where
  pub setting : Setting
  pub kernel_metric : ℕ
  pub reflect_kernel_metric : Bool
  pub through : ℕ → Through
  pub filters : Filters
  pub keep_unfeasible : Bool
  pub myid : List ℕ

-- Whether the kernel accepts the changes that may be tried, in their order: the change of a metric,
-- the two of route_changed, and the one of route_lost.
pub record Replies : Type 0 where
  pub change_ok : Bool
  pub better_ok : Bool
  pub considered_ok : Bool
  pub lost_ok : Bool

unfoldable pub kernel_value : Node → ℕ → ℕ
kernel_value n metric = metric_to_kernel n.kernel_metric n.reflect_kernel_metric metric

-- The assignments at the end of change_route_metric, in fields of 16 bits.
unfoldable pub set_metric : Setting → ℕ → ℕ → ℕ → BabelRoute → BabelRoute
set_metric s refmetric cost add route =
    let route' : BabelRoute = record route {
      refmetric = refmetric % 2 ^ 16;
      cost = cost % 2 ^ 16;
      add_metric = add % 2 ^ 16;
    } in
    if s.smoothing.half_life.smoothing_half_life == 0
    then (record route' {
      smoothed_metric = route_metric route';
      smoothed_metric_time = s.smoothing.now;
    })
    else route'

-- The route after the call, and what is called.
unfoldable pub change_route_metric : Node → Bool → BabelRoute → ℕ → ℕ → ℕ → BabelRoute × List Effect
unfolding set_metric kernel_value
change_route_metric n ok route refmetric cost add =
    let asks : Bool =
      route.installed
      && not (
          kernel_value n (route_metric route)
          == kernel_value n (min (refmetric + cost + add) infinity)) in
    let asked : List Effect =
      if asks then kernel (kchange_route_metric route.handle refmetric cost add) ∷ [] else [] in
    if asks && not ok then (route, asked) else (
      set_metric n.setting refmetric cost add (after_smoothing n.setting.smoothing route),
      asked ++ kernel (notify_change route.handle) ∷ [],
    )

unfoldable pub retract_route : Node → Bool → BabelRoute → BabelRoute × List Effect
unfolding change_route_metric
retract_route n ok route = change_route_metric n ok route infinity infinity 0

abbrev pub and_then :
    List Effect → Option (RouteTable × List Effect) → Option (RouteTable × List Effect)
and_then first none = none
and_then first (some (t, later)) = some (t, first ++ later)

abbrev pub changed_here :
    Node → Replies → BabelRoute → ℕ → RouteTable → Option (RouteTable × List Effect)
changed_here n replies route oldmetric t =
    route_changed n.setting replies.better_ok replies.considered_ok route route.src oldmetric
      (store n.setting.sources route t)

abbrev retracted :
    Node → Replies → ℕ → RouteTable → BabelRoute × List Effect → Option (RouteTable × List Effect)
retracted n replies oldmetric t (route, asked) =
    let stored : RouteTable = store n.setting.sources route t in
    if ltb oldmetric infinity
    then and_then asked (changed_here n replies route oldmetric t)
    else some (stored, asked)

-- The route has been smoothed once more if its metric is the old one.
abbrev remetered :
    Node
    → Replies
    → ℕ
    → ℕ
    → RouteTable
    → BabelRoute × List Effect
    → Option (RouteTable × List Effect)
remetered n replies oldmetric old_smoothed t (route, asked) =
    let again : BabelRoute = after_smoothing n.setting.smoothing route in
    if not (route_metric route == oldmetric)
    then and_then asked (changed_here n replies route oldmetric t)
    else (if not (again.smoothed_metric == old_smoothed)
        then and_then asked (changed_here n replies again oldmetric t)
        else some (store n.setting.sources again t, asked))

-- The filter is applied to the route's source and neighbour.
abbrev pub filtered_metric : Node → Source → Through → ℕ
filtered_metric n src via = pos_part (
    input_filter n.filters src.id src.prefix src.plen src.src_prefix src.src_plen via.address
      via.ifindex)

unfoldable pub update_route_metric :
    Node → Replies → BabelRoute → RouteTable → Option (RouteTable × List Effect)
unfolding retract_route
update_route_metric n replies route t =
    let s : Setting = n.setting in
    let src : Source = s.sources route.src in
    let via : Through = n.through route.neigh in
    let oldmetric : ℕ = route_metric route in
    let route' : BabelRoute = after_smoothing s.smoothing route in
    if route_expired s.smoothing.now route'
    then (if ltb route'.refmetric infinity
        then retracted n replies oldmetric t (
            retract_route n replies.change_ok
              (record route' { seqno = seqno_plus src.seqno (pos 1) }))
        else some (store s.sources route' t, []))
    else remetered n replies oldmetric route'.smoothed_metric t (
        change_route_metric n replies.change_ok route' route'.refmetric via.cost
          (filtered_metric n src via))

-- The heap of sources after one of them has been changed.
unfoldable pub write_source : (ℕ → Source) → ℕ → Source → ℕ → Source
write_source sources a src b = if b == a then src else sources b

-- What is left after a call: the sources, the table and what was called.
pub record After : Type 0 where
  pub sources : ℕ → Source
  pub table : RouteTable
  pub effects : List Effect

abbrev pub released : ℕ → (ℕ → Source) → Option (RouteTable × List Effect) → Option After
released a sources none = none
released a sources (some (t, effects)) = elim (release_source (sources a)) [
  | none ↦ none
  | some src ↦ some (record { sources = write_source sources a src; table = t; effects = effects })
]

-- `none` is a failed assertion. `realloc` is whether realloc succeeds.
unfoldable pub flush_route : Node → Replies → Bool → BabelRoute → RouteTable → Option After
unfolding write_source
flush_route n replies realloc route t =
    let s : Setting = n.setting in
    let (t', events) = uninstall_route s.sources route t in
    let asked : List Effect = map kernel (events ++ notify_flush route.handle ∷ []) in
    released route.src s.sources (elim (remove_route s.sources realloc route t') [
      | none ↦ none
      | some t'' ↦
          if route.installed
          then and_then asked
              (route_lost s replies.lost_ok (s.sources route.src) (route_metric route) t'')
          else some (t'', asked)
    ])
