-- ===== src/Route/Change.antt =====
-- route.c: route_changed and route_lost, which look for another route.
use rabeld.Prelude.{
  ℕ, ◌/◌, ◌<◌, ◌≡◌, ◌≢◌, arith, Bool, true, ltb, leb, if◌then◌else◌, List, [], ◌∷◌, ◌++◌, map,
  get_or, Option, some, none, refl, Option-cases, inl, inr, subst, sym, ap, ◌∙◌,
}
use rabeld.Prelude.Int.{pos}
use rabeld.Util.Seqno.{seqno_plus}
use rabeld.Slots.{Slot, found, absent}
use rabeld.Source.{Source, infinity}
use rabeld.Route.{BabelRoute}
use rabeld.Route.Metric.{route_metric}
use rabeld.Route.Table.{RouteTable, destination, find_route_slot, routes_of, nowhere}
use rabeld.Route.Select.{find_best_route, route_acceptable, smoothed_value}
use rabeld.Route.Select.Best.{IsBest, find_best_route-IsBest}
use rabeld.Route.Announce.{send_update_resend, send_triggered_update}
use rabeld.Route.Consider.{Setting, Effect, announce, send_request_resend, consider_route, load}

-- What is sent for a destination that has no other route.
unfoldable pub lost_effects : Source → ℕ → List Effect
lost_effects src oldmetric =
    if ltb oldmetric infinity
    then announce (send_update_resend (destination src))
      ∷ (if leb oldmetric (infinity / 2)
          then send_request_resend (destination src)
              (if leb infinity src.metric then src.seqno else seqno_plus src.seqno (pos 1)) src.id
            ∷ []
          else [])
    else []

-- `ok` is whether the kernel accepts a change; `none` is a failed assertion of switch_routes.
unfoldable pub route_lost :
    Setting → Bool → Source → ℕ → RouteTable → Option (RouteTable × List Effect)
route_lost s ok src oldmetric t =
    let (t', best) = find_best_route s.sources s.smoothing (destination src) true none t in
    elim best [
      | none ↦ some (t', lost_effects src oldmetric)
      | some new ↦ consider_route s ok (load s.sources new t') t'
    ]

-- The first half of route_changed, for an installed route.
unfoldable pub try_better :
    Setting → Bool → BabelRoute → RouteTable → Option (RouteTable × List Effect)
try_better s ok route t =
    let (t', best) =
      find_best_route s.sources s.smoothing (destination (s.sources route.src)) true none t in
    elim best [
      | none ↦ some (t', [])
      | some better ↦
          if ltb (route_metric better) (route_metric route)
          then consider_route s ok (load s.sources better t') t'
          else some (t', [])
    ]

abbrev then_effects :
    List Effect → Option (RouteTable × List Effect) → Option (RouteTable × List Effect)
then_effects first none = none
then_effects first (some (t, later)) = some (t, first ++ later)

-- The second half, with the route as it stands then.
unfoldable pub announce_or_consider :
    Setting → Bool → BabelRoute → ℕ → ℕ → RouteTable → Option (RouteTable × List Effect)
announce_or_consider s ok route oldsrc oldmetric t =
    if route.installed
    then some
        (t, map announce (send_triggered_update s.sources s.now s.to_resend route oldsrc oldmetric))
    else consider_route s ok route t

-- `oldsrc` is the address of a source; `ok` and `ok'` are for the two changes of the kernel's table
-- that may be tried.
unfoldable pub route_changed :
    Setting → Bool → Bool → BabelRoute → ℕ → ℕ → RouteTable → Option (RouteTable × List Effect)
route_changed s ok ok' route oldsrc oldmetric t =
    if route.installed
    then elim (try_better s ok route t) [
      | none ↦ none
      | some (t', effects) ↦
          then_effects effects
            (announce_or_consider s ok' (load s.sources route t') oldsrc oldmetric t')
    ]
    else announce_or_consider s ok' route oldsrc oldmetric t

effects_of : Option (RouteTable × List Effect) → List Effect
effects_of none = []
effects_of (some (t, effects)) = effects

lost_effects-some :
    (src : Source) (oldmetric : ℕ) → oldmetric < infinity → lost_effects src oldmetric ≢ []
unfolding lost_effects
lost_effects-some src oldmetric finite e = absurd (ground arith)

-- Only a destination that has a slot has a best route.
no_best :
    (s : Setting) (src : Source) (t : RouteTable) (n : ℕ)
    → find_route_slot s.sources (destination src) t ≡ absent n
    → (find_best_route s.sources s.smoothing (destination src) true none t).1 ≡ none
unfolding find_best_route
no_best s src t n f = rw (find_best_route, f) refl

slot_of :
    (s : Setting) (src : Source) (t : RouteTable) (best : BabelRoute)
    → (find_best_route s.sources s.smoothing (destination src) true none t).1 ≡ some best
    → (i : ℕ) × (find_route_slot s.sources (destination src) t ≡ found i)
slot_of s src t best e = by_slot (find_route_slot s.sources (destination src) t) refl
  where
    apart : none ≡ some best → ⊥
    apart z = cc

    by_slot :
        (w : Slot)
        → find_route_slot s.sources (destination src) t ≡ w
        → (i : ℕ) × (find_route_slot s.sources (destination src) t ≡ found i)
    by_slot (found i) f = (i, f)
    by_slot (absent n) f = absurd (apart (sym (no_best s src t n f) ∙ e))

-- The loss of a route that was usable is never passed over in silence unless there is another one:
-- where route_lost does nothing at all for a finite old metric, the destination has a slot, and one
-- of the routes in it is feasible and not expired, the best of these by the smoothed metric.
pub route_lost-IsBest :
    (s : Setting) (ok : Bool) (src : Source) (oldmetric : ℕ) (t t' : RouteTable)
    → oldmetric < infinity
    → route_lost s ok src oldmetric t ≡ some (t', [])
    → (i : ℕ) × (best : BabelRoute) × (find_route_slot s.sources (destination src) t ≡ found i)
      × IsBest
          (route_acceptable s.sources s.smoothing.now true none)
          (smoothed_value s.smoothing)
          (routes_of (get_or t.routes i nowhere))
          (some best)
unfolding route_lost effects_of
route_lost-IsBest s ok src oldmetric t t' finite silent =
    elim (Option-cases (find_best_route s.sources s.smoothing (destination src) true none t).1) [
      | inr (best, e) ↦
          let (i, slot) = slot_of s src t best e in
          (
            i,
            best,
            slot,
            subst
                (IsBest (route_acceptable s.sources s.smoothing.now true none)
                  (smoothed_value s.smoothing) (routes_of (get_or t.routes i nowhere)))
                e
                (find_best_route-IsBest s.sources s.smoothing (destination src) true none t i slot),
          )
      | inl e ↦
          let t₁ : RouteTable =
            (find_best_route s.sources s.smoothing (destination src) true none t).0 in
          absurd (
            lost_effects-some src oldmetric finite (
              ap
                (λ b. effects_of (elim b [
                  | none ↦ some (t₁, lost_effects src oldmetric)
                  | some new ↦ consider_route s ok (load s.sources new t₁) t₁
                ]))
                (sym e)
              ∙ ap effects_of silent))
    ]
