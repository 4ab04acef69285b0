-- ===== src/Prelude/Order.antt =====
-- Three-way comparisons as the C code returns them: `lt` is a negative number, `eq` is 0 and `gt` a
-- positive one. A comparison that goes on to the next field when the first is 0 is `then_compare`.
use Prim.Native.Nat.{ℕ, compare, Ordering}
use mathlib.Core.Path.{◌≡◌}
use native.Mathlib.Omega.{arith}

abbrev pub flip : Ordering → Ordering
flip Ordering.lt = Ordering.gt
flip Ordering.eq = Ordering.eq
flip Ordering.gt = Ordering.lt

abbrev pub then_compare : Ordering → Ordering → Ordering
then_compare Ordering.lt d = Ordering.lt
then_compare Ordering.eq d = d
then_compare Ordering.gt d = Ordering.gt

-- What the comparisons of `a` with `b` and of `b` with `c` say of that of `a` with `c`.
abbrev pub Fits : Ordering → Ordering → Ordering → Type 0
Fits Ordering.eq d e = d ≡ e
Fits Ordering.lt Ordering.lt e = e ≡ Ordering.lt
Fits Ordering.lt Ordering.eq e = e ≡ Ordering.lt
Fits Ordering.lt Ordering.gt e = Unit
Fits Ordering.gt Ordering.gt e = e ≡ Ordering.gt
Fits Ordering.gt Ordering.eq e = e ≡ Ordering.gt
Fits Ordering.gt Ordering.lt e = Unit

pub compare-flip : (a b : ℕ) → compare b a ≡ flip (compare a b)
compare-flip a b = ground arith

pub compare-Fits : (a b c : ℕ) → Fits (compare a b) (compare b c) (compare a c)
compare-Fits a b c = ground arith

pub then_compare-flip :
    (c d c' d' : Ordering)
    → c' ≡ flip c
    → d' ≡ flip d
    → then_compare c' d' ≡ flip (then_compare c d)
then_compare-flip c d c' d' p q = ground arith

pub then_compare-Fits :
    (a b c a' b' c' : Ordering)
    → Fits a b c
    → Fits a' b' c'
    → Fits (then_compare a a') (then_compare b b') (then_compare c c')
then_compare-Fits a b c a' b' c' p q = ground arith
