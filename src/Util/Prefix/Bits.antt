-- ===== src/Util/Prefix/Bits.antt =====
-- util.c: the prefix functions against their reading bit by bit.
use rabeld.Prelude.{
  ℕ, zero, suc, ◌+◌, ◌-◌, ◌*◌, ◌/◌, ◌%◌, ◌^◌, ◌≤◌, ◌<◌, ◌≡◌, refl, Bool, arith, ◌==◌, true, bit_and,
  List, [], ◌∷◌, get_or, ==_iff, ap,
}
use native.Mathlib.Decide.{ℕ_discrete}
use rabeld.Prelude.Table.{each_below, each_below-at}
use rabeld.Util.Prefix.{shift_mask}

-- Bit `i` of an address, counted from the most significant bit of its first byte.
abbrev pub bit_at : List ℕ → ℕ → ℕ
bit_at a i = get_or a (i / 8) 0 / 2 ^ (7 - i % 8) % 2

-- Every byte is below 256.
abbrev pub AreBytes : List ℕ → Type 0
AreBytes [] = Unit {0}
AreBytes (x ∷ xs) = (x < 256) × AreBytes xs

pub AreBytes-get_or : (a : List ℕ) (i : ℕ) → AreBytes a → get_or a i 0 < 256
AreBytes-get_or [] i h = omega arith
AreBytes-get_or (x ∷ xs) zero h = h.0
AreBytes-get_or (x ∷ xs) (suc i) h = AreBytes-get_or xs i h.1

mask_row : ℕ → ℕ → Bool
mask_row r b = bit_and b (shift_mask (8 - r)) == b / 2 ^ (8 - r) * 2 ^ (8 - r)

mask_table : each_below 8 (λ r. each_below 256 (mask_row r)) ≡ true
unfolding each_below mask_row
mask_table = refl

-- The mask of a partial byte keeps its first r bits.
pub bit_and-shift_mask :
    (r b : ℕ) → r < 8 → b < 256 → bit_and b (shift_mask (8 - r)) ≡ b / 2 ^ (8 - r) * 2 ^ (8 - r)
unfolding mask_row
bit_and-shift_mask r b hr hb = (==_iff _ _).0 (
    each_below-at 256 (mask_row r) b hb
      (each_below-at 8 (λ k. each_below 256 (mask_row k)) r hr mask_table))

half_step : (k b : ℕ) → k < 8 → b / 2 ^ suc k ≡ b / 2 ^ k / 2
half_step zero b h = omega arith
half_step (suc zero) b h = omega arith
half_step (suc (suc zero)) b h = omega arith
half_step (suc (suc (suc zero))) b h = omega arith
half_step (suc (suc (suc (suc zero)))) b h = omega arith
half_step (suc (suc (suc (suc (suc zero))))) b h = omega arith
half_step (suc (suc (suc (suc (suc (suc zero)))))) b h = omega arith
half_step (suc (suc (suc (suc (suc (suc (suc zero))))))) b h = omega arith
half_step (suc (suc (suc (suc (suc (suc (suc (suc k)))))))) b h = absurd (omega arith)

top_half : (r b : ℕ) → r < 8 → b / 2 ^ (8 - r) ≡ b / 2 ^ (7 - r) / 2
top_half r b h = rw (eight) (half_step (7 - r) b (omega arith))
  where
    eight : 8 - r ≡ suc (7 - r)
    eight = omega arith

seven : (r : ℕ) → 8 - suc r ≡ 7 - r
seven r = omega arith

-- Bytes with the same first r bits agree above the other bits, and the other way round.
bits-top :
    (r b c : ℕ)
    → b < 256
    → c < 256
    → r ≤ 8
    → ((j : ℕ) → j < r → b / 2 ^ (7 - j) % 2 ≡ c / 2 ^ (7 - j) % 2)
    → b / 2 ^ (8 - r) ≡ c / 2 ^ (8 - r)
bits-top zero b c hb hc hr h = omega arith
bits-top (suc r) b c hb hc hr h = rw (seven r) (
    omega (
      arith,
      top_half r b (omega arith),
      top_half r c (omega arith),
      h r (omega arith),
      bits-top r b c hb hc (omega arith) (λ j lt. h j (omega arith)),
    ))

top-bits :
    (r b c : ℕ)
    → r ≤ 8
    → b / 2 ^ (8 - r) ≡ c / 2 ^ (8 - r)
    → (j : ℕ) → j < r
    → b / 2 ^ (7 - j) % 2 ≡ c / 2 ^ (7 - j) % 2
top-bits zero b c hr e j lt = absurd (omega arith)
top-bits (suc r) b c hr e j lt = elim (ℕ_discrete j r) [
  | yes p ↦ rw p (ap (λ (t : ℕ). t % 2) last)
  | no p ↦
      top-bits r b c (omega arith)
        (omega (arith, last, top_half r b (omega arith), top_half r c (omega arith))) j
        (omega arith)
]
  where
    last : b / 2 ^ (7 - r) ≡ c / 2 ^ (7 - r)
    last = rw (← seven r) e

abbrev pub SameBits : ℕ → List ℕ → List ℕ → Type 0
SameBits n a p = (i : ℕ) → i < n → bit_at a i ≡ bit_at p i

-- Equal bytes have equal bits, and the other way round.
pub SameBits-of_bytes :
    (n : ℕ) (a p : List ℕ)
    → ((i : ℕ) → i < n / 8 → get_or a i 0 ≡ get_or p i 0)
    → get_or a (n / 8) 0 / 2 ^ (8 - n % 8) ≡ get_or p (n / 8) 0 / 2 ^ (8 - n % 8)
    → SameBits n a p
SameBits-of_bytes n a p whole part i lt = elim (ℕ_discrete (i / 8) (n / 8)) [
  | yes e ↦ rw e (
      top-bits (n % 8) (get_or a (n / 8) 0) (get_or p (n / 8) 0) (omega arith) part (i % 8)
        (omega arith))
  | no ne ↦ ap (λ (b : ℕ). b / 2 ^ (7 - i % 8) % 2) (whole (i / 8) (omega arith))
]

pub bytes_of_SameBits :
    (n : ℕ) (a p : List ℕ)
    → AreBytes a
    → AreBytes p
    → SameBits n a p
    → ((i : ℕ) → i < n / 8 → get_or a i 0 ≡ get_or p i 0)
      × (get_or a (n / 8) 0 / 2 ^ (8 - n % 8) ≡ get_or p (n / 8) 0 / 2 ^ (8 - n % 8))
bytes_of_SameBits n a p ha hp h = (whole, part)
  where
    bit_of :
        (i j : ℕ)
        → j < 8
        → i * 8 + j < n
        → get_or a i 0 / 2 ^ (7 - j) % 2 ≡ get_or p i 0 / 2 ^ (7 - j) % 2
    bit_of i j lt le = rw (quot, rem) at (h (i * 8 + j) le)
      where
        quot : (i * 8 + j) / 8 ≡ i
        quot = omega arith

        rem : (i * 8 + j) % 8 ≡ j
        rem = omega arith

    whole : (i : ℕ) → i < n / 8 → get_or a i 0 ≡ get_or p i 0
    whole i lt = omega (
      arith,
      bits-top 8 (get_or a i 0) (get_or p i 0) (AreBytes-get_or a i ha) (AreBytes-get_or p i hp)
          (omega arith) (λ j hj. bit_of i j hj (omega arith)),
    )

    part : get_or a (n / 8) 0 / 2 ^ (8 - n % 8) ≡ get_or p (n / 8) 0 / 2 ^ (8 - n % 8)
    part =
        bits-top (n % 8) (get_or a (n / 8) 0) (get_or p (n / 8) 0) (AreBytes-get_or a (n / 8) ha)
          (AreBytes-get_or p (n / 8) hp) (omega arith)
          (λ j hj. bit_of (n / 8) j (omega arith) (omega arith))
