-- ===== src/Route/Metric/Smooth.antt =====
-- route.c: the smoothed metric goes towards the metric, and is of now.
use rabeld.Prelude.{
  ℕ, zero, suc, ◌+◌, ◌-◌, ◌*◌, ◌/◌, ◌^◌, ◌≤◌, ◌<◌, ◌≡◌, ◌⊎◌, inl, inr, refl, arith, false, leb, ltb,
  Bool-cases, some, ◌∙◌,
}
use native.Mathlib.Nat.{div-mul-le_self, mul-le-mul_left}
use rabeld.Route.{BabelRoute}
use rabeld.Route.Metric.{
  route_metric, roughly, HalfLife, change_smoothing_half_life, two_to_the_one_over, dist, toward,
  Smoothed, halve, halve_loop, product, decay, decay_loop, snap, smooth, is_settled,
  route_smoothed_metric,
}

-- b lies on the way from a to the metric m.
abbrev pub IsBetween : ℕ → ℕ → ℕ → Type 0
IsBetween m a b = ((a ≤ b) × (b ≤ m)) ⊎ ((m ≤ b) × (b ≤ a))

IsBetween-trans : (m a b c : ℕ) → IsBetween m a b → IsBetween m b c → IsBetween m a c
IsBetween-trans m a b c p q = ground arith

IsBetween-toward :
    (m s gain : ℕ) → m < 2 ^ 16 → s < 2 ^ 16 → gain ≤ dist m s → IsBetween m s (toward m s gain)
IsBetween-toward m s gain hm hs hg = ground arith

-- At most five quarters of the value.
roughly-le : (v r : ℕ) → 4 * roughly v r ≤ 5 * v
unfolding roughly
roughly-le v r = ground arith

two_to_the_one_over-le : (hl : ℕ) → 3 ≤ hl → two_to_the_one_over hl - 0x10000 ≤ 17034
two_to_the_one_over-le hl h =
    ground (arith, div-mul-le_self 45426 hl, mul-le-mul_left {m = 3} {n = hl} (45426 / hl) h)

product-le :
    (v r factor : ℕ)
    → v < 2 ^ 16
    → factor - 0x10000 ≤ 17034
    → (roughly v r * (factor - 0x10000) < 2 ^ 31) × (roughly v r * (factor - 0x10000) / 0x10000 ≤ v)
product-le v r factor hv hf = scaled (roughly v r) (factor - 0x10000) (roughly-le v r) hf
  where
    scaled : (x k : ℕ) → 4 * x ≤ 5 * v → k ≤ 17034 → (x * k < 2 ^ 31) × (x * k / 0x10000 ≤ v)
    scaled x k hx hk = (
      omega (arith, mul-le-mul_left {m = k} {n = 17034} x hk),
      omega (arith, mul-le-mul_left {m = k} {n = 17034} x hk),
    )

dist-lt : (m s : ℕ) → m < 2 ^ 16 → s < 2 ^ 16 → dist m s < 2 ^ 16
dist-lt m s hm hs = ground arith

IsBetween-lt : (m a b : ℕ) → IsBetween m a b → m < 2 ^ 16 → a < 2 ^ 16 → b < 2 ^ 16
IsBetween-lt m a b p hm ha = ground arith

module _ (random : ℕ → ℕ) (now metric : ℕ) (fits : metric < 2 ^ 16) where
  halve-IsBetween :
      (hl : ℕ) (s : Smoothed)
      → s.value < 2 ^ 16
      → IsBetween metric s.value (halve random hl metric s).value
  halve-IsBetween hl s hs =
      IsBetween-toward metric s.value (roughly (dist metric s.value) (random s.time) / 2) fits hs
        (omega (arith, roughly-le (dist metric s.value) (random s.time)))

  decay-IsBetween :
      (factor : ℕ) (s : Smoothed)
      → s.value < 2 ^ 16
      → factor - 0x10000 ≤ 17034
      → IsBetween metric s.value (decay random factor metric s).value
  decay-IsBetween factor s hs hf =
      IsBetween-toward metric s.value (product random factor metric s / 0x10000) fits hs (
        (product-le (dist metric s.value) (random s.time) factor (dist-lt metric s.value fits hs)
          hf).1)

  -- The first loop takes all whole half-lives, and the second one has less than one left.
  halve_loop-IsBetween :
      (rounds hl : ℕ) (s : Smoothed)
      → 1 ≤ hl
      → s.value < 2 ^ 16
      → s.time ≤ now
      → now ≤ s.time + rounds
      → let s' = halve_loop rounds random now hl metric s in
        IsBetween metric s.value s'.value × (s'.time ≤ now) × (now < s'.time + hl)
  unfolding halve_loop
  halve_loop-IsBetween zero hl s h1 hs ht hr = (ground arith, ht, omega arith)
  halve_loop-IsBetween (suc rounds) hl s h1 hs ht hr = elim (Bool-cases (leb (s.time + hl) now)) [
    | inl go ↦
        let once = halve-IsBetween hl s hs in
        let (more, t1, t2) =
          halve_loop-IsBetween rounds hl (halve random hl metric s) h1
            (IsBetween-lt metric s.value (halve random hl metric s).value once fits hs)
            (ground arith) (omega arith) in
        rw go (IsBetween-trans metric s.value (halve random hl metric s).value _ once more, t1, t2)
    | inr stop ↦ rw stop (ground arith, ht, ground arith)
  ]

  decay_loop-IsBetween :
      (rounds factor : ℕ) (s : Smoothed)
      → factor - 0x10000 ≤ 17034
      → s.value < 2 ^ 16
      → s.time ≤ now
      → now ≤ s.time + rounds
      → (s' : Smoothed) × (decay_loop rounds random now factor metric s ≡ some s')
        × IsBetween metric s.value s'.value
        × (s'.time ≡ now)
  unfolding decay_loop
  decay_loop-IsBetween zero factor s hf hs ht hr = (s, refl, ground arith, omega arith)
  decay_loop-IsBetween (suc rounds) factor s hf hs ht hr = elim (Bool-cases (ltb s.time now)) [
    | inl go ↦
        let once = decay-IsBetween factor s hs hf in
        let (s', e, more, t) =
          decay_loop-IsBetween rounds factor (decay random factor metric s) hf
            (IsBetween-lt metric s.value (decay random factor metric s).value once fits hs)
            (ground arith) (omega arith) in
        let small : leb (2 ^ 31) (product random factor metric s) ≡ false = ground (
          arith,
          (product-le (dist metric s.value) (random s.time) factor (dist-lt metric s.value fits hs)
              hf).0,
        ) in
        (
          s',
          rw (go, small, e) refl,
          IsBetween-trans metric s.value (decay random factor metric s).value s'.value once more,
          t,
        )
    | inr stop ↦ (s, rw stop refl, ground arith, ground arith)
  ]

  snap-IsBetween :
      (s : Smoothed) (a : ℕ)
      → IsBetween metric a s.value
      → IsBetween metric a (snap metric s).value × ((snap metric s).time ≡ s.time)
  snap-IsBetween s a p = ground arith

  smooth-IsBetween :
      (hl : ℕ) (s : Smoothed)
      → 3 ≤ hl
      → s.value < 2 ^ 16
      → s.time ≤ now
      → (s' : Smoothed) × (smooth random now (change_smoothing_half_life hl) metric s ≡ some s')
        × IsBetween metric s.value s'.value
        × (s'.time ≡ now)
  unfolding smooth
  smooth-IsBetween hl s h3 hs ht =
      let h : HalfLife = change_smoothing_half_life hl in
      let s₁ : Smoothed = halve_loop (now - s.time) random now h.smoothing_half_life metric s in
      let same : (h.smoothing_half_life ≡ hl)
          × (h.two_to_the_one_over_hl ≡ two_to_the_one_over hl) =
        unfold change_smoothing_half_life in ground arith in
      let (b₁, t₁, u₁) =
        halve_loop-IsBetween (now - s.time) h.smoothing_half_life s (omega (arith, same.0)) hs ht
          (omega arith) in
      let (s₂, e, b₂, t₂) =
        decay_loop-IsBetween (now - s₁.time) h.two_to_the_one_over_hl s₁
          (rw same.1 (two_to_the_one_over-le hl h3))
          (IsBetween-lt metric s.value s₁.value b₁ fits hs) t₁ (omega arith) in
      let (b₃, t₃) =
        snap-IsBetween s₂ s.value (IsBetween-trans metric s.value s₁.value s₂.value b₁ b₂) in
      (snap metric s₂, rw (smooth, e) refl, b₃, t₃ ∙ t₂)

-- With a half-life of 3 seconds or more no product overflows, and the assertion at the end of
-- route_smoothed_metric holds: the smoothed metric is then of now. It lies between what it was and
-- the metric, wherever the random numbers fall. The smoothed metric has 16 bits.
pub route_smoothed_metric-IsBetween :
    (random : ℕ → ℕ) (now hl : ℕ) (route : BabelRoute)
    → 3 ≤ hl
    → route.smoothed_metric < 2 ^ 16
    → (route' : BabelRoute) × (route_smoothed_metric random now
          (change_smoothing_half_life hl)
          route
        ≡ some route')
      × IsBetween (route_metric route) route.smoothed_metric route'.smoothed_metric
      × (route'.smoothed_metric_time ≡ now)
unfolding route_smoothed_metric
route_smoothed_metric-IsBetween random now hl route h3 hs =
    let m : ℕ = route_metric route in
    let s : Smoothed = record {
      value = route.smoothed_metric;
      time = route.smoothed_metric_time;
    } in
    elim (Bool-cases (is_settled now (change_smoothing_half_life hl) m s)) [
      | inl settled ↦ (
        record route { smoothed_metric = m; smoothed_metric_time = now },
        rw settled refl,
        ground arith,
        refl,
      )
      | inr moving ↦
          let (s', e, b, t) =
            smooth-IsBetween random now m (unfold route_metric in ground arith) hl s h3 hs
              (ground arith) in
          (
            record route { smoothed_metric = s'.value; smoothed_metric_time = s'.time },
            rw (moving, e) refl,
            b,
            t,
          )
    ]
