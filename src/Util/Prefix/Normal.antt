-- ===== src/Util/Prefix/Normal.antt =====
-- util.c: normalize_prefix, bit by bit.
use rabeld.Prelude.{
  ℕ, zero, suc, ◌+◌, ◌-◌, ◌*◌, ◌/◌, ◌%◌, ◌^◌, ◌≤◌, ◌<◌, ◌≡◌, refl, Bool, arith, ltb, leb, ◌==◌,
  if◌then◌else◌, true, bit_and, List, [], ◌∷◌, ◌++◌, get_or, set, ==_iff, inl, inr, Bool-cases,
  take, replicate, length, ◌∙◌,
}
use native.Mathlib.Decide.{ℕ_discrete}
use rabeld.Util.Prefix.{normalize_prefix}
use rabeld.Util.Prefix.Bits.{AreBytes, AreBytes-get_or, bit_at}
use rabeld.Prelude.Table.{each_below, each_below-at}

-- The mask that normalize_prefix puts on the partial byte.
abbrev keep : ℕ → ℕ → ℕ
keep r b = bit_and b (bit_and (0xFF * 2 ^ (8 - r)) 0xFF)

bit_row : ℕ → ℕ → ℕ → Bool
bit_row r j b = keep r b / 2 ^ (7 - j) % 2 == (if ltb j r then b / 2 ^ (7 - j) % 2 else 0)

bit_table : each_below 8 (λ r. each_below 8 (λ j. each_below 256 (bit_row r j))) ≡ true
unfolding each_below bit_row
bit_table = refl

-- The mask keeps the first r bits and clears the others.
keep_bit :
    (r j b : ℕ)
    → r < 8
    → j < 8
    → b < 256
    → keep r b / 2 ^ (7 - j) % 2 ≡ (if ltb j r then b / 2 ^ (7 - j) % 2 else 0)
unfolding bit_row
keep_bit r j b hr hj hb = (==_iff _ _).0 (
    each_below-at 256 (bit_row r j) b hb (
      each_below-at 8 (λ k. each_below 256 (bit_row r k)) j hj
        (each_below-at 8 (λ k. each_below 8 (λ m. each_below 256 (bit_row k m))) r hr bit_table)))

get_or-replicate : (n i : ℕ) → get_or (replicate n zero) i zero ≡ zero
get_or-replicate zero i = refl
get_or-replicate (suc n) zero = refl
get_or-replicate (suc n) (suc i) = get_or-replicate n i

get_or-take : (n i : ℕ) (p : List ℕ) → i < n → get_or (take n p) i 0 ≡ get_or p i 0
get_or-take zero i p h = absurd (omega arith)
get_or-take (suc n) i [] h = refl
get_or-take (suc n) zero (x ∷ p) h = refl
get_or-take (suc n) (suc i) (x ∷ p) h = get_or-take n i p (omega arith)

-- The first bytes of the buffer, then zeros.
get_or-filled :
    (n m i : ℕ) (p : List ℕ)
    → n ≤ length p
    → get_or (take n p ++ replicate m zero) i 0 ≡ (if ltb i n then get_or p i 0 else 0)
get_or-filled zero m i p h = get_or-replicate m i ∙ ground arith
get_or-filled (suc n) m i [] h = absurd (omega arith)
get_or-filled (suc n) m zero (x ∷ p) h = ground arith
get_or-filled (suc n) m (suc i) (x ∷ p) h = get_or-filled n m i p (omega arith) ∙ ground arith

length-filled :
    (n m : ℕ) (p : List ℕ) → n ≤ length p → length (take n p ++ replicate m zero) ≡ n + m
length-filled zero zero p h = refl
length-filled zero (suc m) p h = omega (arith, length-filled zero m p (omega arith))
length-filled (suc n) m [] h = absurd (omega arith)
length-filled (suc n) m (x ∷ p) h = omega (arith, length-filled n m p (omega arith))

get_or-set :
    (p : List ℕ) (i j v : ℕ)
    → i < length p
    → get_or (set p i v) j 0 ≡ (if i == j then v else get_or p j 0)
get_or-set [] i j v h = absurd (omega arith)
get_or-set (x ∷ p) zero zero v h = refl
get_or-set (x ∷ p) zero (suc j) v h = ground arith
get_or-set (x ∷ p) (suc i) zero v h = ground arith
get_or-set (x ∷ p) (suc i) (suc j) v h = get_or-set p i j v (omega arith) ∙ ground arith

-- A byte of the result: kept, masked or cleared.
partial_byte : ℕ → List ℕ → List ℕ
partial_byte plen prefix = take (plen / 8) prefix ++ replicate (16 - plen / 8) zero

bit-whole :
    (p : List ℕ) (plen i : ℕ)
    → length p ≡ 16
    → plen < 128
    → plen % 8 ≡ 0
    → bit_at (partial_byte plen p) i ≡ (if ltb i plen then bit_at p i else 0)
unfolding partial_byte
bit-whole p plen i l lt r =
    rw (get_or-filled (plen / 8) (16 - plen / 8) (i / 8) p (omega arith)) (ground arith)

bit-partial :
    (p : List ℕ) (plen i : ℕ)
    → AreBytes p
    → length p ≡ 16
    → plen < 128
    → bit_at (set (partial_byte plen p) (plen / 8) (keep (plen % 8) (get_or p (plen / 8) 0))) i
      ≡ (if ltb i plen then bit_at p i else 0)
unfolding partial_byte
bit-partial p plen i hp l lt =
    rw
      (
        get_or-set (partial_byte plen p) (plen / 8) (i / 8)
            (keep (plen % 8) (get_or p (plen / 8) 0))
            (omega (arith, length-filled (plen / 8) (16 - plen / 8) p (omega arith))),
        get_or-filled (plen / 8) (16 - plen / 8) (i / 8) p (omega arith),
      )
      (elim (ℕ_discrete (plen / 8) (i / 8)) [
        | yes e ↦
            rw
              (
                (==_iff _ _).1 e,
                keep_bit (plen % 8) (i % 8) (get_or p (plen / 8) 0) (omega arith) (omega arith)
                    (AreBytes-get_or p (plen / 8) hp),
                e,
              )
              (ground arith)
        | no ne ↦ ground arith
      ])

-- The result has the first `plen` bits of a 16-byte prefix, and zeros in place of the others.
pub normalize_prefix_lem :
    (p : List ℕ) (plen i : ℕ)
    → AreBytes p
    → length p ≡ 16
    → i < 128
    → bit_at (normalize_prefix p plen) i ≡ (if ltb i plen then bit_at p i else 0)
unfolding normalize_prefix partial_byte
normalize_prefix_lem p plen i hp l h = elim (Bool-cases (leb 128 plen)) [
  | inl whole ↦ rw (whole, get_or-take 16 (i / 8) p (omega arith)) (ground arith)
  | inr part ↦ rw part (elim (Bool-cases (plen % 8 == 0)) [
    | inl r ↦ rw r (bit-whole p plen i l (ground arith) ((==_iff _ _).0 r))
    | inr r ↦ rw r (bit-partial p plen i hp l (ground arith))
  ])
]
