-- ===== src/Util/Seqno.antt =====
-- util.h: sequence numbers, which are 16-bit and compared on a circle.
use rabeld.Prelude.{
  ℕ, suc, ◌+◌, ◌-◌, ◌%◌, ◌^◌, ◌≤◌, ◌<◌, ◌≡◌, ◌≢◌, Bool, Ordering, arith, ltb, leb, ◌==◌,
  if◌then◌else◌,
}
use rabeld.Prelude.Int.{ℤ, pos, negsuc, ◌≤ℤ◌}
use rabeld.Prelude.Order.{flip}

-- `x & 0x8000`, as a truth value.
abbrev pub bit15 : ℕ → Bool
bit15 x = leb 0x8000 (x % 2 ^ 16)

-- The difference of the two `unsigned short`s is an `int`; its low 16 bits are those of
-- `s2 + 2 ^ 16 - s1`. The results 1, 0 and -1 are `gt`, `eq` and `lt`.
unfoldable pub seqno_compare : ℕ → ℕ → Ordering
seqno_compare s1 s2 =
    if s1 == s2
    then Ordering.eq
    else (if bit15 (s2 + 2 ^ 16 - s1) then Ordering.gt else Ordering.lt)

-- `(short) x` for x below 2 ^ 16.
abbrev pub to_short : ℕ → ℤ
to_short x = if ltb x (2 ^ 15) then pos x else negsuc (2 ^ 16 - x - 1)

unfoldable pub seqno_minus : ℕ → ℕ → ℤ
seqno_minus s1 s2 = to_short ((s1 + 2 ^ 16 - s2) % 2 ^ 16)

-- `(s + plus) & 0xFFFF`, where `plus` may be negative.
unfoldable pub seqno_plus : ℕ → ℤ → ℕ
seqno_plus s (pos n) = (s + n) % 2 ^ 16
seqno_plus s (negsuc n) = (s + 2 ^ 16 - suc n % 2 ^ 16) % 2 ^ 16

-- Swapping the arguments turns the comparison round, unless the two numbers are opposite on the
-- circle, where both ways say "greater".
pub seqno_compare-flip :
    (s1 s2 : ℕ)
    → s1 < 2 ^ 16
    → s2 < 2 ^ 16
    → (s1 ≢ s2 + 2 ^ 15)
    → (s2 ≢ s1 + 2 ^ 15)
    → seqno_compare s2 s1 ≡ flip (seqno_compare s1 s2)
unfolding seqno_compare
seqno_compare-flip s1 s2 h1 h2 n1 n2 = ground arith

-- A number that is 1 to 2 ^ 15 further on the circle compares greater.
pub seqno_compare-plus :
    (s k : ℕ)
    → s < 2 ^ 16
    → 0 < k
    → k ≤ 2 ^ 15
    → seqno_compare (seqno_plus s (pos k)) s ≡ Ordering.gt
unfolding seqno_compare seqno_plus
seqno_compare-plus s k h p q = ground arith

-- The difference of two seqnos fits a short, and adding it to the second gives the first.
pub seqno_plus-minus :
    (s1 s2 : ℕ)
    → s1 < 2 ^ 16
    → s2 < 2 ^ 16
    → (seqno_plus s2 (seqno_minus s1 s2) ≡ s1)
      × (negsuc (2 ^ 15 - 1) ≤ℤ seqno_minus s1 s2)
      × (seqno_minus s1 s2 ≤ℤ pos (2 ^ 15 - 1))
unfolding seqno_minus seqno_plus
seqno_plus-minus s1 s2 h1 h2 = ground arith
