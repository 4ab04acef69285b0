-- ===== src/Prelude/Table.antt =====
-- Facts about the values of a byte or of a 16-bit word, checked at each of them.
use Prim.Native.Nat.{ℕ, zero, suc, ◌+◌, ◌*◌, ◌/◌, ◌%◌, ◌<◌, ◌^◌}
use mathlib.Core.Path.{◌≡◌}
use mathlib.Core.Bool.{Bool, true, ◌&&◌}
use native.Mathlib.Omega.{arith}

-- Whether the test passes at every number less than the bound.
unfoldable pub each_below : ℕ → (ℕ → Bool) → Bool
each_below zero test = true
each_below (suc bound) test = each_below bound test && test bound

-- A table that was checked gives its fact at each number less than the bound.
pub each_below-at :
    (bound : ℕ) (test : ℕ → Bool) (k : ℕ) → k < bound → each_below bound test ≡ true → test k ≡ true
unfolding each_below
each_below-at zero test k lt h = elim lt [ ]
each_below-at (suc bound) test k lt h = ground (arith, each_below-at bound test k)

-- A test that passes at each 16-bit word, tried byte by byte.
abbrev pub words : (ℕ → Bool) → Bool
words test = each_below 256 (λ high. each_below 256 (λ low. test (high * 256 + low)))

pub words-at : (test : ℕ → Bool) (x : ℕ) → words test ≡ true → x < 2 ^ 16 → test x ≡ true
words-at test x h lt = rw bytes at (
    each_below-at 256 (λ low. test (x / 256 * 256 + low)) (x % 256) (omega arith)
      (each_below-at 256 (λ high. each_below 256 (λ low. test (high * 256 + low))) (x / 256)
        (omega arith) h))
  where
    bytes : x / 256 * 256 + x % 256 ≡ x
    bytes = omega arith
