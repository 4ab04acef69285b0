-- ===== src/Util/Timeval.antt =====
-- util.c and util.h: `struct timeval`, a time in seconds and microseconds. The daemon's clock is
-- not negative, and no caller adds a negative delay.
use rabeld.Prelude.{
  ℕ, ◌+◌, ◌-◌, ◌*◌, ◌/◌, ◌%◌, ◌^◌, ◌≤◌, ◌<◌, ◌≡◌, Ordering, compare, arith, ltb, leb, ◌==◌,
  if◌then◌else◌, ◌||◌, true, false,
}
use rabeld.Prelude.Order.{then_compare}

pub record Timeval : Type 0 where
  pub sec : ℕ
  pub usec : ℕ

abbrev pub IsNormal : Timeval → Type 0
IsNormal t = t.usec < 1_000_000

-- The instant in microseconds.
abbrev pub micros : Timeval → ℕ
micros t = t.sec * 1_000_000 + t.usec

abbrev pub zero_time : Timeval
zero_time = record { sec = 0; usec = 0 }

-- The quotient of the two microsecond fields is rounded toward 0, as `/` of C does.
unfoldable pub timeval_minus_msec : Timeval → Timeval → ℕ
timeval_minus_msec s1 s2 =
    if ltb s1.sec s2.sec
    then 0
    else (if ltb 2_000_000 (s1.sec - s2.sec)
        then 2_000_000_000
        else (if ltb s2.sec s1.sec
            then (if leb s2.usec s1.usec
                then ((s1.sec - s2.sec) * 1000 + (s1.usec - s2.usec) / 1000) % 2 ^ 32
                else ((s1.sec - s2.sec) * 1000 + 2 ^ 32 - (s2.usec - s1.usec) / 1000) % 2 ^ 32)
            else (if leb s1.usec s2.usec then 0 else (s1.usec - s2.usec) / 1000)))

unfoldable pub timeval_add_msec : Timeval → ℕ → Timeval
timeval_add_msec s msecs =
    let sec : ℕ = s.sec + msecs / 1000 in
    let usecs : ℕ = s.usec + msecs % 1000 * 1000 in
    if ltb usecs 1_000_000
    then record { sec = sec; usec = usecs }
    else record { sec = sec + 1; usec = usecs - 1_000_000 }

unfoldable pub timeval_compare : Timeval → Timeval → Ordering
timeval_compare s1 s2 = then_compare (compare s1.sec s2.sec) (compare s1.usec s2.usec)

-- The new value of `*d`.
unfoldable pub timeval_min : Timeval → Timeval → Timeval
unfolding timeval_compare
timeval_min d s =
    if s.sec == 0
    then d
    else (if d.sec == 0 || elim (timeval_compare d s) [ Ordering.gt ↦ true | _ ↦ false ]
        then s
        else d)

-- `random` is the value that random() returns.
unfoldable pub timeval_min_sec : ℕ → Timeval → ℕ → Timeval
timeval_min_sec random d secs =
    if d.sec == 0 || ltb secs d.sec then record { sec = secs; usec = random % 1_000_000 } else d

-- Between normal times, the first at most 2,000,000 seconds after the second, the result is the
-- difference in milliseconds with an error of less than one. The difference of the instants
-- counts as 0 when the first is not the later one, and then the result is 0.
pub timeval_minus_msec_lem :
    (s1 s2 : Timeval)
    → IsNormal s1
    → IsNormal s2
    → s1.sec ≤ s2.sec + 2_000_000
    → (timeval_minus_msec s1 s2 * 1000 < micros s1 - micros s2 + 1000)
      × (micros s1 - micros s2 < timeval_minus_msec s1 s2 * 1000 + 1000)
unfolding timeval_minus_msec
timeval_minus_msec_lem s1 s2 h1 h2 far = ground arith

-- Adding milliseconds keeps a time normal and adds exactly that many microseconds.
pub timeval_add_msec-IsNormal :
    (s : Timeval) (msecs : ℕ)
    → IsNormal s
    → IsNormal (timeval_add_msec s msecs)
      × (micros (timeval_add_msec s msecs) ≡ micros s + msecs * 1000)
unfolding timeval_add_msec
timeval_add_msec-IsNormal s msecs h = ground arith

-- On normal times the comparison is that of the instants.
pub timeval_compare_lem :
    (s1 s2 : Timeval)
    → IsNormal s1
    → IsNormal s2
    → timeval_compare s1 s2 ≡ compare (micros s1) (micros s2)
unfolding timeval_compare
timeval_compare_lem s1 s2 h1 h2 = ground arith
