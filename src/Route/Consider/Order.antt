-- ===== src/Route/Consider/Order.antt =====
-- route.c: when consider_route installs a route, and why it does not change its mind.
use rabeld.Prelude.{
  ◌≤◌, ◌<◌, ◌≡◌, refl, arith, Bool, true, false, ltb, leb, not, if◌then◌else◌, Bool-cases,
  Option-cases, inl, inr, ◌⊎◌, Option, some, none, ap, subst, sym, ◌∙◌,
}
use rabeld.Source.{infinity}
use rabeld.Route.{BabelRoute}
use rabeld.Route.Metric.{route_metric, route_smoothed_metric, smooth, is_settled, Smoothed}
use rabeld.Route.Metric.Again.{route_smoothed_metric-again}
use rabeld.Route.Table.{RouteTable, destination, find_installed_route}
use rabeld.Route.Select.{route_feasible, after_smoothing, smoothed_value}
use rabeld.Route.Consider.{
  Setting, Choice, stay, install, is_shadowed, choose_smoothed, choose_between, choose,
}

-- Whether a choice is to install, and which route takes the place of which.
abbrev pub IsInstall : Choice → Type 0
IsInstall (stay t) = ⊥
IsInstall (install old new t) = Unit

Choice-cases : (c : Choice) → ((t : RouteTable) × (c ≡ stay t)) ⊎ IsInstall c
Choice-cases (stay t) = inl (t, refl)
Choice-cases (install old new t) = inr tt

-- When a route takes the place of an installed one: the old one is retracted, or the new one is not
-- worse by its metric and better by its smoothed metric.
abbrev pub Better : Setting → BabelRoute → BabelRoute → Type 0
Better s old new =
    (route_metric new < infinity)
    × ((infinity ≤ route_metric old)
        ⊎ ((route_metric new ≤ route_metric old)
            × (smoothed_value s.smoothing new < smoothed_value s.smoothing old)))

-- Why a route is installed.
pub record MayInstall (s : Setting) (route : BabelRoute) (t : RouteTable) : Type 0 where
  pub not_installed : route.installed ≡ false
  pub feasible : route_feasible s.sources s.smoothing.now route ≡ true
  pub not_shadowed : is_shadowed s (destination (s.sources route.src)) ≡ false
  pub better :
      (find_installed_route s.sources (destination (s.sources route.src)) t ≡ none)
      ⊎ ((old : BabelRoute) × (find_installed_route s.sources (destination (s.sources route.src)) t
            ≡ some old)
          × Better s old route)

unless :
    (b : Bool) (t : RouteTable) (y : Choice)
    → IsInstall (if b then stay t else y)
    → (b ≡ false) × IsInstall y
unless true t y i = absurd i
unless false t y i = (refl, i)

provided :
    (b : Bool) (x : Choice) (t : RouteTable)
    → IsInstall (if b then x else stay t)
    → (b ≡ true) × IsInstall x
provided true x t i = (refl, i)
provided false x t i = absurd i

either_one :
    (b : Bool) (x y : Choice)
    → IsInstall (if b then x else y)
    → (b ≡ true) ⊎ ((b ≡ false) × IsInstall y)
either_one true x y i = inl refl
either_one false x y i = inr (refl, i)

choose_between-Better :
    (s : Setting) (old new : BabelRoute) (t : RouteTable)
    → IsInstall (choose_between s old new t)
    → Better s old new
unfolding choose_between choose_smoothed
choose_between-Better s old new t i =
    let (finite, i₁) = unless (leb infinity (route_metric new)) t _ i in
    (
      ground arith,
      elim (either_one (leb infinity (route_metric old)) _ _ i₁) [
        | inl retracted ↦ inl (ground arith)
        | inr (kept, i₂) ↦
            let (le, i₃) = provided (leb (route_metric new) (route_metric old)) _ t i₂ in
            let (lt, i₄) =
              provided (ltb (smoothed_value s.smoothing new) (smoothed_value s.smoothing old)) _ _
                i₃ in
            inr (ground arith, ground arith)
      ],
    )

-- A route is installed only if it is feasible, not installed yet and not shadowed by a redistributed
-- route, and if no route is installed for its destination, or the one that is has been retracted, or
-- has a metric that is not smaller and a smoothed metric that is larger. A route that takes the place
-- of another one has a finite metric.
pub choose-MayInstall :
    (s : Setting) (route : BabelRoute) (t : RouteTable)
    → IsInstall (choose s route t)
    → MayInstall s route t
unfolding choose
choose-MayInstall s route t i =
    let (down, i₁) = unless route.installed t _ i in
    let (feasible, i₂) = unless (not (route_feasible s.sources s.smoothing.now route)) t _ i₁ in
    let (clear, i₃) = unless (is_shadowed s (destination (s.sources route.src))) t _ i₂ in
    record {
      not_installed = down;
      feasible = ground arith;
      not_shadowed = clear;
      better =
          elim (Option-cases
            (find_installed_route s.sources (destination (s.sources route.src)) t)) [
              | inl e ↦ inl e
              | inr (old, e) ↦ inr (
                old,
                e,
                choose_between-Better s old route t (
                    subst
                      (λ o. IsInstall (elim o [
                        | none ↦ install none route t
                        | some old ↦ choose_between s old route t
                      ]))
                      e i₃),
              )
            ];
    }

-- Setting the flag of a route changes nothing in how it is smoothed.
with_flag : Bool → Option BabelRoute → Option BabelRoute
with_flag b none = none
with_flag b (some r) = some (record r { installed = b })

flag-moves :
    (b c : Bool) (o : Option Smoothed) (x : BabelRoute) (f : Smoothed → BabelRoute)
    → (if c
        then some (record x { installed = b })
        else (elim o [ none ↦ none | some m ↦ some (record (f m) { installed = b }) ]))
      ≡ with_flag b (if c then some x else (elim o [ none ↦ none | some m ↦ some (f m) ]))
unfolding with_flag
flag-moves b true o x f = refl
flag-moves b false none x f = refl
flag-moves b false (some m) x f = refl

-- What smoothing leaves alone.
abbrev SameRoute : BabelRoute → Option BabelRoute → Type 0
SameRoute r none = Unit
SameRoute r (some r') = (route_metric r' ≡ route_metric r) × (r'.src ≡ r.src)

module _ (s : Setting) where
  abbrev smoothed_route : BabelRoute → Option BabelRoute
  smoothed_route r =
      route_smoothed_metric s.smoothing.random s.smoothing.now s.smoothing.half_life r

  smoothed-flag :
      (r : BabelRoute) (b : Bool)
      → smoothed_route (record r { installed = b }) ≡ with_flag b (smoothed_route r)
  unfolding route_smoothed_metric route_metric with_flag
  smoothed-flag r b =
      flag-moves b
        (is_settled s.smoothing.now s.smoothing.half_life (route_metric r)
          (record { value = r.smoothed_metric; time = r.smoothed_metric_time }))
        (smooth s.smoothing.random s.smoothing.now s.smoothing.half_life (route_metric r)
          (record { value = r.smoothed_metric; time = r.smoothed_metric_time }))
        (record r { smoothed_metric = route_metric r; smoothed_metric_time = s.smoothing.now })
        (λ m. record r { smoothed_metric = m.value; smoothed_metric_time = m.time })

  smoothed-SameRoute : (r : BabelRoute) → SameRoute r (smoothed_route r)
  unfolding route_smoothed_metric route_metric
  smoothed-SameRoute r =
      elim (Bool-cases (
        is_settled s.smoothing.now s.smoothing.half_life (route_metric r)
          (record { value = r.smoothed_metric; time = r.smoothed_metric_time }))) [
            | inl y ↦ rw y (refl, refl)
            | inr n ↦
                elim (Option-cases (
                  smooth s.smoothing.random s.smoothing.now s.smoothing.half_life (route_metric r)
                    (record { value = r.smoothed_metric; time = r.smoothed_metric_time }))) [
                      | inl e ↦ rw (n, e) tt
                      | inr (m, e) ↦ rw (n, e) (refl, refl)
                    ]
          ]

  abbrev after_of : BabelRoute → Option BabelRoute → BabelRoute
  after_of r none = r
  after_of r (some r') = r'

  after_smoothing-same :
      (r : BabelRoute)
      → (route_metric (after_smoothing s.smoothing r) ≡ route_metric r)
        × ((after_smoothing s.smoothing r).src ≡ r.src)
  after_smoothing-same r = elim (Option-cases (smoothed_route r)) [
    | inl e ↦
        let a : after_smoothing s.smoothing r ≡ r = ap (after_of r) e in
        (ap route_metric a, ap (λ x. x.src) a)
    | inr (r', e) ↦
        let a : after_smoothing s.smoothing r ≡ r' = ap (after_of r) e in
        let same : SameRoute r (some r') = subst (SameRoute r) e (smoothed-SameRoute r) in
        (ap route_metric a ∙ same.0, ap (λ x. x.src) a ∙ same.1)
  ]

  -- A second look within the same second.
  smoothed_value-again :
      (r : BabelRoute) (b : Bool)
      → (after_smoothing s.smoothing r).smoothed_metric_time ≡ s.smoothing.now
      → smoothed_value s.smoothing (record (after_smoothing s.smoothing r) { installed = b })
        ≡ smoothed_value s.smoothing r
  unfolding with_flag
  smoothed_value-again r b t = elim (Option-cases (smoothed_route r)) [
    | inl e ↦
        let a : after_smoothing s.smoothing r ≡ r = ap (after_of r) e in
        subst
          (λ x.
            smoothed_value s.smoothing (record x { installed = b }) ≡ smoothed_value s.smoothing r)
          (sym a)
          (ap (λ o. (after_of (record r { installed = b }) o).smoothed_metric)
              (smoothed-flag r b ∙ ap (with_flag b) e)
            ∙ ap (λ x. x.smoothed_metric) (sym a))
    | inr (r', e) ↦
        let a : after_smoothing s.smoothing r ≡ r' = ap (after_of r) e in
        let again : smoothed_route r' ≡ some r' =
          route_smoothed_metric-again s.smoothing.random s.smoothing.now s.smoothing.half_life r r'
            e (ap (λ x. x.smoothed_metric_time) (sym a) ∙ t) in
        subst
          (λ x.
            smoothed_value s.smoothing (record x { installed = b }) ≡ smoothed_value s.smoothing r)
          (sym a)
          (ap (λ o. (after_of (record r' { installed = b }) o).smoothed_metric)
              (smoothed-flag r' b ∙ ap (with_flag b) again)
            ∙ ap (λ x. x.smoothed_metric) (sym a))
  ]

  -- The routes as consider_route leaves them.
  abbrev now_installed : BabelRoute → BabelRoute
  now_installed new = record (after_smoothing s.smoothing new) { installed = true }

  abbrev replaced : BabelRoute → BabelRoute
  replaced old = record (after_smoothing s.smoothing old) { installed = false }

  flag_metric :
      (r : BabelRoute) (b : Bool) → route_metric (record r { installed = b }) ≡ route_metric r
  unfolding route_metric
  flag_metric r b = refl

  -- What the route was compared with.
  compared :
      (route old : BabelRoute) (t : RouteTable)
      → find_installed_route s.sources (destination (s.sources route.src)) t ≡ some old
      → (find_installed_route s.sources (destination (s.sources route.src)) t ≡ none)
        ⊎ ((o : BabelRoute) × (find_installed_route s.sources (destination (s.sources route.src)) t
              ≡ some o)
            × Better s o route)
      → Better s old route
  compared route old t there (inl e) = absurd (ground (arith, there, e))
  compared route old t there (inr (o, e, b)) =
      subst (λ x. Better s x route) (ap (λ x. elim x [ none ↦ old | some y ↦ y ]) (sym e ∙ there)) b

  not_back :
      (old new : BabelRoute)
      → route_metric old < infinity
      → (after_smoothing s.smoothing old).smoothed_metric_time ≡ s.smoothing.now
      → (after_smoothing s.smoothing new).smoothed_metric_time ≡ s.smoothing.now
      → Better s old new
      → Better s (now_installed new) (replaced old)
      → ⊥
  not_back old new finite told tnew (finite_new, why) (finite_old, why_back) =
      let mo : route_metric (replaced old) ≡ route_metric old =
        flag_metric _ false ∙ (after_smoothing-same old).0 in
      let mn : route_metric (now_installed new) ≡ route_metric new =
        flag_metric _ true ∙ (after_smoothing-same new).0 in
      let vo = smoothed_value-again old false told in
      let vn = smoothed_value-again new true tnew in
      elim why [
        | inl retracted ↦ absurd (omega arith)
        | inr (le, lt) ↦ elim why_back [
          | inl retracted ↦ absurd (omega (arith, mn))
          | inr (le', lt') ↦ absurd (omega (arith, vo, vn))
        ]
      ]

  -- Within the second in which a route has taken the place of another one with a finite metric, the
  -- other one does not take its place again, whatever else has changed in the table: what
  -- consider_route compares is a strict order. Both metrics are smoothed up to that second.
  pub choose-stays :
      (old new : BabelRoute) (t t' : RouteTable)
      → destination (s.sources old.src) ≡ destination (s.sources new.src)
      → find_installed_route s.sources (destination (s.sources new.src)) t ≡ some old
      → route_metric old < infinity
      → (after_smoothing s.smoothing old).smoothed_metric_time ≡ s.smoothing.now
      → (after_smoothing s.smoothing new).smoothed_metric_time ≡ s.smoothing.now
      → IsInstall (choose s new t)
      → find_installed_route s.sources (destination (s.sources new.src)) t'
        ≡ some (now_installed new)
      → (t'' : RouteTable) × (choose s (replaced old) t' ≡ stay t'')
  choose-stays old new t t' same there finite told tnew first there' =
      elim (Choice-cases (choose s (replaced old) t')) [
        | inl done ↦ done
        | inr i ↦
            let back = choose-MayInstall s (replaced old) t' i in
            let forth = choose-MayInstall s new t first in
            let to : destination (s.sources (replaced old).src) ≡ destination (s.sources new.src) =
              ap (λ n. destination (s.sources n)) (after_smoothing-same old).1 ∙ same in
            let here : find_installed_route s.sources (destination (s.sources (replaced old).src))
                  t'
                ≡ some (now_installed new) =
              ap (λ d. find_installed_route s.sources d t') to ∙ there' in
            absurd (
              not_back old new finite told tnew (compared new old t there forth.better)
                (compared (replaced old) (now_installed new) t' here back.better))
      ]
