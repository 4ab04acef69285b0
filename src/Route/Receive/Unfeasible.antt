-- ===== src/Route/Receive/Unfeasible.antt =====
-- route.c: what update_route does with an update that is not feasible.
use rabeld.Prelude.{
  ℕ, ◌%◌, ◌^◌, ◌<◌, ltb, ◌≡◌, refl, arith, Bool, true, false, ◌==◌, ◌&&◌, not, if◌then◌else◌, List,
  ◌++◌, map, Option, some, none, ap, ◌∙◌, ◌⊎◌, inl, inr, Bool-cases,
}
use rabeld.Source.{infinity}
use rabeld.Route.{BabelRoute}
use rabeld.Route.Feasible.{update_feasible}
use rabeld.Route.Metric.{route_smoothed_metric, Smoothed, is_settled, smooth, route_metric}
use rabeld.Route.Select.{Smoothing, after_smoothing, route_feasible}
use rabeld.Route.Table.{RouteTable, uninstall_route}
use rabeld.Route.Consider.{Setting, Effect, kernel}
use rabeld.Route.Update.{Node, Replies, change_route_metric, set_metric}
use rabeld.Route.Receive.{Arrival, take_over, take_update, is_switched, new_channels, node_filter}

-- The fields that smoothing leaves alone.
abbrev SameFields : BabelRoute → BabelRoute → Type 0
SameFields r r' = (r'.installed ≡ r.installed) × (r'.src ≡ r.src) × (r'.seqno ≡ r.seqno)

abbrev SameIfSome : BabelRoute → Option BabelRoute → Type 0
SameIfSome r none = Unit
SameIfSome r (some r') = SameFields r r'

either_smoothed :
    (r : BabelRoute) (b : Bool) (x : BabelRoute) (f : Smoothed → BabelRoute) (o : Option Smoothed)
    → SameFields r x
    → ((m : Smoothed) → SameFields r (f m))
    → SameIfSome r (if b then some x else elim o [ none ↦ none | some m ↦ some (f m) ])
either_smoothed r true x f o h k = h
either_smoothed r false x f none h k = tt
either_smoothed r false x f (some m) h k = k m

route_smoothed_metric-SameIfSome :
    (s : Smoothing) (r : BabelRoute)
    → SameIfSome r (route_smoothed_metric s.random s.now s.half_life r)
unfolding route_smoothed_metric
route_smoothed_metric-SameIfSome s r =
    let m : Smoothed = record { value = r.smoothed_metric; time = r.smoothed_metric_time } in
    either_smoothed r (is_settled s.now s.half_life (route_metric r) m)
      (record r { smoothed_metric = route_metric r; smoothed_metric_time = s.now })
      (λ s'. record r { smoothed_metric = s'.value; smoothed_metric_time = s'.time })
      (smooth s.random s.now s.half_life (route_metric r) m) (refl, refl, refl)
      (λ m'. (refl, refl, refl))

or_itself :
    (r : BabelRoute) (o : Option BabelRoute)
    → SameIfSome r o
    → SameFields r (elim o [ none ↦ r | some r' ↦ r' ])
or_itself r none h = (refl, refl, refl)
or_itself r (some r') h = h

after_smoothing-SameFields : (s : Smoothing) (r : BabelRoute) → SameFields r (after_smoothing s r)
after_smoothing-SameFields s r =
    or_itself r (route_smoothed_metric s.random s.now s.half_life r)
      (route_smoothed_metric-SameIfSome s r)

accepted {ℓ} : {A : Type ℓ} (b : Bool) (x y : A) → (if b && not true then x else y) ≡ y
accepted true x y = refl
accepted false x y = refl

change_route_metric-accepted :
    (n : Node) (route : BabelRoute) (refmetric cost add : ℕ)
    → (change_route_metric n true route refmetric cost add).0
      ≡ set_metric n.setting refmetric cost add (after_smoothing n.setting.smoothing route)
unfolding change_route_metric
change_route_metric-accepted n route refmetric cost add =
    ap {A = BabelRoute × List Effect} (λ p. p.0) (accepted _ _ _)

set_metric-fields :
    (s : Setting) (refmetric cost add : ℕ) (route : BabelRoute)
    → SameFields route (set_metric s refmetric cost add route)
      × ((set_metric s refmetric cost add route).refmetric ≡ refmetric % 2 ^ 16)
unfolding set_metric
set_metric-fields s refmetric cost add route = ground arith

change_route_metric-fields :
    (n : Node) (ok : Bool) (route : BabelRoute) (refmetric cost add : ℕ)
    → ok ≡ true
    → SameFields route (change_route_metric n ok route refmetric cost add).0
      × ((change_route_metric n ok route refmetric cost add).0.refmetric ≡ refmetric % 2 ^ 16)
change_route_metric-fields n ok route refmetric cost add e =
    let smoothed : BabelRoute = after_smoothing n.setting.smoothing route in
    let (b, src, seqno) = after_smoothing-SameFields n.setting.smoothing route in
    let ((b', src', seqno'), m) = set_metric-fields n.setting refmetric cost add smoothed in
    rw (e, change_route_metric-accepted n route refmetric cost add)
      ((b' ∙ b, src' ∙ src, seqno' ∙ seqno), m)

module _ (n : Node) (replies : Replies) (a : Arrival) (src : ℕ) (route : BabelRoute)
    (t : RouteTable) where
  -- An update that is not feasible is taken over all the same, if the kernel accepts the new metric:
  -- the route then has the update's source and seqno, and is not feasible. It stays installed if it
  -- was so and its source is the same; if the source is another one, it is not installed, and what was
  -- done begins with the calls that uninstall it.
  pub take_over-unfeasible :
      replies.change_ok ≡ true
      → a.update.metric < 2 ^ 16
      → update_feasible n.setting.smoothing.now
          (some (n.setting.sources src))
          a.update.seqno
          a.update.metric
        ≡ false
      → let (taken, t', effects) = take_over n replies a false src route t in
        (route_feasible n.setting.sources n.setting.smoothing.now taken ≡ false)
        × (taken.seqno ≡ a.update.seqno)
        × (taken.src ≡ src)
        × (taken.installed ≡ (route.installed && route.src == src))
        × ((route.installed && not (route.src == src) ≡ false)
            ⊎ ((asked : List Effect) × (effects
                  ≡ map kernel (uninstall_route n.setting.sources route t).1 ++ asked)))
  unfolding take_over take_update route_feasible
  take_over-unfeasible ok small bad =
      let off : BabelRoute =
        if is_switched false src route then (record route { installed = false }) else route in
      let fresh : Bool = n.keep_unfeasible && ltb a.update.metric infinity in
      let started : BabelRoute = record off {
        src = src;
        time = if fresh then n.setting.smoothing.now else off.time;
        seqno = a.update.seqno;
        channels = new_channels a off;
      } in
      let ((b, same, seqno), m) =
        change_route_metric-fields n replies.change_ok started a.update.metric
          (n.through a.neigh).cost (node_filter n a) ok in
      (
        rw (same, seqno, m) (ground (arith, bad)),
        seqno,
        same,
        b ∙ (ground arith),
        (elim (Bool-cases (route.installed && not (route.src == src))) [
          | inl e ↦ inr ((take_update n replies a false src off).1, rw e refl)
          | inr e ↦ inl e
        ]),
      )
