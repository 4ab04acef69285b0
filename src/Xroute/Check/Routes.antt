-- ===== src/Xroute/Check/Routes.antt =====
-- xroute.c: check_xroutes as a whole, with what it does to the routes of the table. The two loops over
-- the array do not look at these, so that they come first here.
use rabeld.Prelude.{
  ℕ, ◌+◌, Bool, true, false, ltb, not, ◌||◌, if◌then◌else◌, min, List, [], ◌∷◌, ◌++◌, map, length,
  Option, some, none,
}
use rabeld.Resend.{Destination}
use rabeld.Config.{Filters}
use rabeld.Route.{BabelRoute}
use rabeld.Route.Table.{RouteTable, find_installed_route, install_route, uninstall_route}
use rabeld.Route.Select.{find_best_route}
use rabeld.Route.Announce.{send_update_resend, send_update}
use rabeld.Route.Consider.{Setting, Effect, kernel, announce, load}
use rabeld.Xroute.{XrouteTable}
use rabeld.Xroute.Check.{KernelRoute, KernelAddr, Checked, check_table, found_routes, maxmaxroutes}

abbrev pub then_call :
    List Effect → Option (RouteTable × List Effect) → Option (RouteTable × List Effect)
then_call first none = none
then_call first (some (t, later)) = some (t, first ++ later)

-- `ok` is whether the kernel accepts a route, by the address of the route; `send` is `send_updates`.
module _ (s : Setting) (ok : ℕ → Bool) (send : Bool) where
  abbrev install_best : RouteTable × Option BabelRoute → Option (RouteTable × List Effect)
  install_best (t, none) = some (t, [])
  install_best (t, some best) =
      elim (install_route s.sources (ok best.handle) (load s.sources best t) t) [
        | none ↦ none
        | some (t', events) ↦ some (t', map kernel events)
      ]

  -- For a destination that has been flushed.
  unfoldable pub after_flush : Destination → RouteTable → Option (RouteTable × List Effect)
  after_flush d t = elim (install_best (find_best_route s.sources s.smoothing d true none t)) [
    | none ↦ none
    | some (t', effects) ↦
        some (t', effects ++ (if send then announce (send_update_resend d) ∷ [] else []))
  ]

  unfoldable pub after_flushes : List Destination → RouteTable → Option (RouteTable × List Effect)
  unfolding after_flush
  after_flushes [] t = some (t, [])
  after_flushes (d ∷ ds) t = elim (after_flush d t) [
    | none ↦ none
    | some (t', effects) ↦ then_call effects (after_flushes ds t')
  ]

  -- `routes[i].metric < allow_duplicates`, or no duplicates are allowed.
  abbrev takes_over : KernelRoute → Bool
  takes_over r = elim (s.allow_duplicates) [ none ↦ true | some allowed ↦ ltb r.metric allowed ]

  abbrev uninstalled : KernelRoute → Option BabelRoute → RouteTable → RouteTable × List Effect
  uninstalled r none t = (t, [])
  uninstalled r (some route) t =
      if takes_over r
      then (let (t', events) = uninstall_route s.sources route t in (t', map kernel events))
      else (t, [])

  -- For a route that has been added.
  unfoldable pub after_add : KernelRoute → RouteTable → RouteTable × List Effect
  after_add r t =
      let (t', effects) = uninstalled r (find_installed_route s.sources r.to t) t in
      (t', effects ++ (if send then announce (send_update 0 r.to) ∷ [] else []))

  unfoldable pub after_adds : List KernelRoute → RouteTable → RouteTable × List Effect
  unfolding after_add
  after_adds [] t = (t, [])
  after_adds (r ∷ rs) t =
      let (t', effects) = after_add r t in
      let (t'', later) = after_adds rs t' in (t'', effects ++ later)

-- What check_xroutes leaves: both tables, the calls, `maxroutes` for the next time, and `change`.
pub record CheckOutcome : Type 0 where
  pub xroutes : XrouteTable
  pub routes : RouteTable
  pub effects : List Effect
  pub maxroutes : ℕ
  pub change : Bool

abbrev is_empty {ℓ} : {A : Type ℓ} → List A → Bool
is_empty [] = true
is_empty (x ∷ xs) = false

abbrev finish : ℕ → Checked → RouteTable × List Effect → RouteTable × List Effect → CheckOutcome
finish numroutes c (t, effects) (t', later) = record {
  xroutes = c.table;
  routes = t';
  effects = effects ++ later;
  maxroutes = min (numroutes + 8) maxmaxroutes;
  change = not (is_empty c.flushed) || not (is_empty c.added_routes);
}

abbrev update_routes : Setting → (ℕ → Bool) → Bool → ℕ → RouteTable → Checked → Option CheckOutcome
update_routes s ok send numroutes t c = elim (after_flushes s ok send c.flushed t) [
  | none ↦ none
  | some (t', effects) ↦
      some (finish numroutes c (t', effects) (after_adds s ok send c.added_routes t'))
]

-- What check_xroutes returns: -1 for too many routes, or the outcome; `none` is a failed assertion.
pub data CheckResult : Type 0 where
  too_many : CheckResult
  checked : Option CheckOutcome → CheckResult

unfoldable pub check_xroutes :
    Setting
    → (ℕ → Bool)
    → Bool
    → Bool
    → Filters
    → ℕ
    → List KernelAddr
    → List KernelRoute
    → XrouteTable
    → RouteTable
    → CheckResult
unfolding found_routes check_table after_flushes after_adds
check_xroutes s ok send realloc c maxroutes addrs dump xt t =
    elim (found_routes c maxroutes addrs dump) [
      | none ↦ too_many
      | some routes ↦ checked (elim (check_table realloc c routes xt) [
        | none ↦ none
        | some r ↦ update_routes s ok send (length routes) t r
      ])
    ]
