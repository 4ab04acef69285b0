-- ===== src/Route/Metric.antt =====
-- route.c, route.h: the metrics of a route, and the smoothing of them; util.c: roughly.
pub mod Smooth
pub mod Again
use rabeld.Prelude.{
  ℕ, zero, suc, ◌+◌, ◌-◌, ◌*◌, ◌/◌, ◌%◌, ◌^◌, ◌==◌, max, min, Bool, true, false, ltb, leb, ◌||◌,
  if◌then◌else◌, Option, some, none,
}
use rabeld.Source.{infinity}
use rabeld.Route.{BabelRoute}

unfoldable pub route_metric : BabelRoute → ℕ
route_metric route = min (route.refmetric + route.cost + route.add_metric) infinity

unfoldable pub route_metric_noninterfering : ℕ → BabelRoute → ℕ
route_metric_noninterfering diversity_factor route =
    min
      (max (route.refmetric + (diversity_factor * route.cost + 128) / 256 + route.add_metric)
        (route.refmetric + 1))
      infinity

abbrev pub kernel_infinity : ℕ
kernel_infinity = 0xFFFF

unfoldable pub metric_to_kernel : ℕ → Bool → ℕ → ℕ
metric_to_kernel kernel_metric reflect_kernel_metric metric =
    if leb infinity metric
    then kernel_infinity
    else (if reflect_kernel_metric
        then (if leb kernel_infinity (kernel_metric + metric)
            then kernel_infinity
            else kernel_metric + metric)
        else kernel_metric)

-- `time < now - hold_time * 7 / 8` in signed arithmetic
unfoldable pub route_old : ℕ → BabelRoute → Bool
route_old now route = ltb (route.time + route.hold_time * 7 / 8) now

unfoldable pub route_expired : ℕ → BabelRoute → Bool
route_expired now route = ltb (route.time + route.hold_time) now

-- roughly of a value that is not negative; of a negative one it is the negative of this. `r` is what
-- random returns.
unfoldable pub roughly : ℕ → ℕ → ℕ
roughly value r = if leb value 1 then value else value * 3 / 4 + r % (value / 2)

-- The static variables that change_smoothing_half_life sets.
pub record HalfLife : Type 0 where
  pub smoothing_half_life : ℕ
  pub two_to_the_one_over_hl : ℕ

-- 2^(1/hl) * 0x10000
abbrev pub two_to_the_one_over : ℕ → ℕ
two_to_the_one_over hl =
    if hl == 1
    then 131072
    else (if hl == 2
        then 92682
        else (if hl == 3 then 82570 else (if hl == 4 then 77935 else 0x10000 + 45426 / hl)))

-- A negative argument is as 0.
unfoldable pub change_smoothing_half_life : ℕ → HalfLife
change_smoothing_half_life half_life =
    if half_life == 0
    then (record { smoothing_half_life = 0; two_to_the_one_over_hl = 0 })
    else (record {
      smoothing_half_life = half_life;
      two_to_the_one_over_hl = two_to_the_one_over half_life;
    })

-- The magnitude of `diff`.
abbrev pub dist : ℕ → ℕ → ℕ
dist metric s = if leb s metric then metric - s else s - metric

-- `s += gain` with the sign of `diff`, in the 16 bits of smoothed_metric
abbrev pub toward : ℕ → ℕ → ℕ → ℕ
toward metric s gain =
    if leb s metric then (s + gain) % 2 ^ 16 else (s + 2 ^ 16 - gain % 2 ^ 16) % 2 ^ 16

-- smoothed_metric and smoothed_metric_time.
pub record Smoothed : Type 0 where
  pub value : ℕ
  pub time : ℕ

abbrev pub halve : (ℕ → ℕ) → ℕ → ℕ → Smoothed → Smoothed
halve random half_life metric s = record {
  value = toward metric s.value (roughly (dist metric s.value) (random s.time) / 2);
  time = s.time + half_life;
}

-- The first loop, for whole half-lives. `random` gives a number for each time that the loops pass.
unfoldable pub halve_loop : ℕ → (ℕ → ℕ) → ℕ → ℕ → ℕ → Smoothed → Smoothed
halve_loop zero random now half_life metric s = s
halve_loop (suc rounds) random now half_life metric s =
    let rest : Smoothed =
      halve_loop rounds random now half_life metric (halve random half_life metric s) in
    if leb (s.time + half_life) now then rest else s

abbrev pub product : (ℕ → ℕ) → ℕ → ℕ → Smoothed → ℕ
product random factor metric s = roughly (dist metric s.value) (random s.time) * (factor - 0x10000)

abbrev pub decay : (ℕ → ℕ) → ℕ → ℕ → Smoothed → Smoothed
decay random factor metric s = record {
  value = toward metric s.value (product random factor metric s / 0x10000);
  time = s.time + 1;
}

-- The second loop, for single seconds; `none` is a product that overflows an int.
unfoldable pub decay_loop : ℕ → (ℕ → ℕ) → ℕ → ℕ → ℕ → Smoothed → Option Smoothed
decay_loop zero random now factor metric s = some s
decay_loop (suc rounds) random now factor metric s =
    let rest : Option Smoothed =
      decay_loop rounds random now factor metric (decay random factor metric s) in
    if ltb s.time now
    then (if leb (2 ^ 31) (product random factor metric s) then none else rest)
    else some s

-- The value is set to the metric when it is near.
abbrev pub snap : ℕ → Smoothed → Smoothed
snap metric s = if ltb (dist metric s.value) 4 then record s { value = metric } else s

-- Both loops, and the end of the branch. Every round takes a second at least.
unfoldable pub smooth : (ℕ → ℕ) → ℕ → HalfLife → ℕ → Smoothed → Option Smoothed
smooth random now h metric s =
    let s₁ : Smoothed = halve_loop (now - s.time) random now h.smoothing_half_life metric s in
    elim (decay_loop (now - s₁.time) random now h.two_to_the_one_over_hl metric s₁) [
      | none ↦ none
      | some s₂ ↦ some (snap metric s₂)
    ]

-- Whether the metric is taken as it is.
abbrev pub is_settled : ℕ → HalfLife → ℕ → Smoothed → Bool
is_settled now h metric s =
    h.smoothing_half_life == 0 || (leb infinity metric || (ltb now s.time || s.value == metric))

-- The assertion at the end is a theorem of Route/Metric/Smooth.antt.
unfoldable pub route_smoothed_metric : (ℕ → ℕ) → ℕ → HalfLife → BabelRoute → Option BabelRoute
route_smoothed_metric random now h route =
    let metric : ℕ = route_metric route in
    let s : Smoothed = record {
      value = route.smoothed_metric;
      time = route.smoothed_metric_time;
    } in
    if is_settled now h metric s
    then some (record route { smoothed_metric = metric; smoothed_metric_time = now })
    else elim (smooth random now h metric s) [
      | none ↦ none
      | some s' ↦ some (record route { smoothed_metric = s'.value; smoothed_metric_time = s'.time })
    ]
