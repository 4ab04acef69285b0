-- ===== src/Route/Metric/Again.antt =====
-- route.c: a second call of route_smoothed_metric within the second returns the same.
use rabeld.Prelude.{
  ℕ, ◌-◌, ◌≡◌, ◌⊎◌, inl, inr, refl, arith, true, false, Bool-cases, Option-cases, some, ap, subst,
  ltb, ◌∙◌,
}
use rabeld.Route.{BabelRoute}
use rabeld.Route.Metric.{
  route_metric, HalfLife, dist, Smoothed, halve_loop, decay_loop, snap, smooth, is_settled,
  route_smoothed_metric,
}

module _ (random : ℕ → ℕ) (now : ℕ) (h : HalfLife) (metric : ℕ) where
  abbrev IsSnapped : Smoothed → Type 0
  IsSnapped s = (s.value ≡ metric) ⊎ (ltb (dist metric s.value) 4 ≡ false)

  snap-IsSnapped : (s : Smoothed) → IsSnapped (snap metric s)
  snap-IsSnapped s = elim (Bool-cases (ltb (dist metric s.value) 4)) [
    | inl y ↦ rw y (inl refl)
    | inr n ↦ inr (rw (n, n) refl)
  ]

  smooth-IsSnapped : (s s' : Smoothed) → smooth random now h metric s ≡ some s' → IsSnapped s'
  unfolding smooth
  smooth-IsSnapped s s' e =
      let s₁ : Smoothed = halve_loop (now - s.time) random now h.smoothing_half_life metric s in
      elim (Option-cases
        (decay_loop (now - s₁.time) random now h.two_to_the_one_over_hl metric s₁)) [
          | inl overflow ↦ absurd (ground (arith, overflow))
          | inr (s₂, done) ↦
              let same : snap metric s₂ ≡ s' = ground (arith, done) in
              rw (← same) (snap-IsSnapped s₂)
        ]

  smooth-now :
      (s : Smoothed)
      → s.time ≡ now
      → ltb (dist metric s.value) 4 ≡ false
      → smooth random now h metric s ≡ some s
  unfolding smooth halve_loop decay_loop
  smooth-now s t far = let z : now - s.time ≡ 0 = omega arith in rw (smooth, z, z, far) refl

settled_self : (now m : ℕ) (h : HalfLife) (s : Smoothed) → s.value ≡ m → is_settled now h m s ≡ true
settled_self now m h s e = ground arith

-- If the metric was not taken as it is, it is so now only for being reached.
settled_reached :
    (now m : ℕ) (h : HalfLife) (s s' : Smoothed)
    → is_settled now h m s ≡ false
    → is_settled now h m s' ≡ true
    → s'.time ≡ now
    → s'.value ≡ m
settled_reached now m h s s' a b t = ground arith

module _ (random : ℕ → ℕ) (now : ℕ) (h : HalfLife) where
  abbrev with_smoothed : BabelRoute → Smoothed → BabelRoute
  with_smoothed route s = record route { smoothed_metric = s.value; smoothed_metric_time = s.time }

  reached_again :
      (route : BabelRoute) (s : Smoothed)
      → s.time ≡ now
      → s.value ≡ route_metric route
      → route_smoothed_metric random now h (with_smoothed route s) ≡ some (with_smoothed route s)
  unfolding route_smoothed_metric route_metric
  reached_again route s t v = rw (settled_self now (route_metric route) h s v, ← v, t) refl

  moving_again :
      (route : BabelRoute) (s s' : Smoothed)
      → is_settled now h (route_metric route) s ≡ false
      → smooth random now h (route_metric route) s ≡ some s'
      → s'.time ≡ now
      → route_smoothed_metric random now h (with_smoothed route s') ≡ some (with_smoothed route s')
  unfolding route_smoothed_metric route_metric
  moving_again route s s' a e t = elim (Bool-cases (is_settled now h (route_metric route) s')) [
    | inl b ↦ reached_again route s' t (settled_reached now (route_metric route) h s s' a b t)
    | inr n ↦ elim (smooth-IsSnapped random now h (route_metric route) s s' e) [
      | inl v ↦ reached_again route s' t v
      | inr far ↦ rw (n, smooth-now random now h (route_metric route) s' t far) refl
    ]
  ]

  abbrev Again : BabelRoute → Type 0
  Again r = route_smoothed_metric random now h r ≡ some r

  -- What a call returns, a second call within the same second returns again.
  pub route_smoothed_metric-again :
      (route route' : BabelRoute)
      → route_smoothed_metric random now h route ≡ some route'
      → route'.smoothed_metric_time ≡ now
      → route_smoothed_metric random now h route' ≡ some route'
  unfolding route_smoothed_metric
  route_smoothed_metric-again route route' e t =
      let m : ℕ = route_metric route in
      let s : Smoothed = record {
        value = route.smoothed_metric;
        time = route.smoothed_metric_time;
      } in
      elim (Bool-cases (is_settled now h m s)) [
        | inl settled ↦
            let same : with_smoothed route (record { value = m; time = now }) ≡ route' =
              ground (arith, settled) in
            subst Again same (reached_again route (record { value = m; time = now }) refl refl)
        | inr moving ↦ elim (Option-cases (smooth random now h m s)) [
          | inl overflow ↦ absurd (ground (arith, moving, overflow))
          | inr (s', done) ↦
              let same : with_smoothed route s' ≡ route' = ground (arith, moving, done) in
              subst Again same
                (moving_again route s s' moving done (ap (λ r. r.smoothed_metric_time) same ∙ t))
        ]
      ]
