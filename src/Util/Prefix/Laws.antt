-- ===== src/Util/Prefix/Laws.antt =====
-- util.c and util.h: what in_prefix and prefix_cmp decide.
use rabeld.Prelude.{
  ℕ, zero, suc, ◌+◌, ◌-◌, ◌*◌, ◌/◌, ◌%◌, ◌^◌, ◌≤◌, ◌<◌, ◌≡◌, ◌≢◌, refl, arith, ltb, ◌==◌,
  if◌then◌else◌, true, false, bit_and, List, [], ◌∷◌, get_or, set, min, ==_iff, ◌↔◌, inl, inr,
  Bool-cases, ap, drop,
}
use native.Mathlib.Nat.{eq_of_mul-eq-mul_right, pow-suc}
use native.Mathlib.Decide.{ℕ_discrete}
use rabeld.Prelude.Bytes.{memcmp, memcmp-eq-get, memcmp-eq_of_get, memcmp-flip, mem_eq, is_eq}
use rabeld.Util.Prefix.{
  in_prefix_of, in_prefix, shift_mask, prefix_cmp, v4mapped, v4prefix, disjoint, less_specific,
  more_specific, equals,
}
use rabeld.Util.Prefix.Bits.{
  bit_and-shift_mask, SameBits, SameBits-of_bytes, bytes_of_SameBits, AreBytes, AreBytes-get_or,
}

mem_eq-get :
    (n : ℕ) (p q : List ℕ) → mem_eq n p q ≡ true → (i : ℕ) → i < n → get_or p i 0 ≡ get_or q i 0
mem_eq-get n p q e = memcmp-eq-get n p q (ground arith)

mem_eq_of_get :
    (n : ℕ) (p q : List ℕ) → ((i : ℕ) → i < n → get_or p i 0 ≡ get_or q i 0) → mem_eq n p q ≡ true
mem_eq_of_get n p q h = ap is_eq (memcmp-eq_of_get n p q h)

pow_pos : (k : ℕ) → 0 < 2 ^ k
pow_pos zero = omega arith
pow_pos (suc k) = rw pow-suc (omega (arith, pow_pos k))

-- The last, partial byte: the masked bytes are equal exactly when the first bits are.
module _ (r b c : ℕ) (hr : r < 8) (hb : b < 256) (hc : c < 256) where
  partial-forth :
      (bit_and b (shift_mask (8 - r)) == bit_and c (shift_mask (8 - r))) ≡ true
      → b / 2 ^ (8 - r) ≡ c / 2 ^ (8 - r)
  partial-forth e =
      eq_of_mul-eq-mul_right (2 ^ (8 - r)) (pow_pos (8 - r)) (b / 2 ^ (8 - r)) (c / 2 ^ (8 - r))
        (rw (← bit_and-shift_mask r b hr hb, ← bit_and-shift_mask r c hr hc) ((==_iff _ _).0 e))

  partial-back :
      b / 2 ^ (8 - r) ≡ c / 2 ^ (8 - r)
      → (bit_and b (shift_mask (8 - r)) == bit_and c (shift_mask (8 - r))) ≡ true
  partial-back e =
      rw (bit_and-shift_mask r b hr hb, bit_and-shift_mask r c hr hc)
        ((==_iff _ _).1 (ap (λ (t : ℕ). t * 2 ^ (8 - r)) e))

-- The test holds exactly when the two agree on their first n bits.
in_prefix_of-forth :
    (n : ℕ) (a p : List ℕ) → AreBytes a → AreBytes p → in_prefix_of a p n ≡ true → SameBits n a p
unfolding in_prefix_of
in_prefix_of-forth n a p ha hp e =
    SameBits-of_bytes n a p (mem_eq-get (n / 8) a p (ground arith)) (elim (ℕ_discrete (n % 8) 0) [
      | yes z ↦ rw z (omega (arith, AreBytes-get_or a (n / 8) ha, AreBytes-get_or p (n / 8) hp))
      | no nz ↦
          partial-forth (n % 8) (get_or a (n / 8) 0) (get_or p (n / 8) 0) (omega arith)
            (AreBytes-get_or a (n / 8) ha) (AreBytes-get_or p (n / 8) hp) (ground arith)
    ])

in_prefix_of-back :
    (n : ℕ) (a p : List ℕ) → AreBytes a → AreBytes p → SameBits n a p → in_prefix_of a p n ≡ true
unfolding in_prefix_of
in_prefix_of-back n a p ha hp h =
    let (whole, part) = bytes_of_SameBits n a p ha hp h in
    rw (mem_eq_of_get (n / 8) a p whole) (elim (Bool-cases (n % 8 == 0)) [
      | inl z ↦ rw z
      | inr nz ↦ rw nz (
          partial-back (n % 8) (get_or a (n / 8) 0) (get_or p (n / 8) 0) (omega arith)
            (AreBytes-get_or a (n / 8) ha) (AreBytes-get_or p (n / 8) hp) part)
    ])

-- An address is in a prefix exactly when the first `plen` bits of the two are the same, where a
-- length over 128 counts as 128.
pub in_prefix_lem :
    (a p : List ℕ) (plen : ℕ)
    → AreBytes a
    → AreBytes p
    → (in_prefix a p plen ≡ true) ↔ SameBits (min plen 128) a p
unfolding in_prefix
in_prefix_lem a p plen ha hp =
    rw (clamp plen)
      (in_prefix_of-forth (min plen 128) a p ha hp, in_prefix_of-back (min plen 128) a p ha hp)
  where
    clamp : (n : ℕ) → (if ltb 128 n then 128 else n) ≡ min n 128
    clamp n = ground arith

get_or-set_other : (p : List ℕ) (i j v : ℕ) → i ≢ j → get_or (set p i v) j 0 ≡ get_or p j 0
get_or-set_other [] i j v h = refl
get_or-set_other (x ∷ p) zero zero v h = absurd (h refl)
get_or-set_other (x ∷ p) zero (suc j) v h = refl
get_or-set_other (x ∷ p) (suc i) zero v h = refl
get_or-set_other (x ∷ p) (suc i) (suc j) v h = get_or-set_other p i j v (λ e. h (ap suc e))

drop-set : (p : List ℕ) (i v : ℕ) → drop 1 (set p (suc i) v) ≡ set (drop 1 p) i v
drop-set [] i v = refl
drop-set (x ∷ p) i v = refl

memcmp-set : (n : ℕ) (p q : List ℕ) (i v : ℕ) → n ≤ i → memcmp n p (set q i v) ≡ memcmp n p q
unfolding memcmp
memcmp-set zero p q i v h = refl
memcmp-set (suc n) p q zero v h = absurd (omega arith)
memcmp-set (suc n) p q (suc i) v h = rw (
  drop-set q i v,
  memcmp-set n (drop 1 p) (drop 1 q) i v (omega arith),
  get_or-set_other q (suc i) 0 v (omega arith),
)

-- The mapping test reads the first 12 bytes only.
v4mapped-set : (q : List ℕ) (i v : ℕ) → 12 ≤ i → v4mapped (set q i v) ≡ v4mapped q
unfolding v4mapped
v4mapped-set q i v h =
    rw (
      memcmp-flip 12 v4prefix (set q i v),
      memcmp-set 12 v4prefix q i v h,
      memcmp-flip 12 v4prefix q,
    )

-- prefix_cmp does not look at the partial byte of the shorter prefix: where the shorter length is
-- above 96 and no multiple of 8, any value of the byte at `plen / 8` gives the same result.
pub prefix_cmp-ignores_partial_byte :
    (p1 p2 : List ℕ) (plen1 plen2 v : ℕ)
    → 96 ≤ min plen1 plen2
    → min plen1 plen2 % 8 ≢ 0
    → prefix_cmp p1 plen1 (set p2 (min plen1 plen2 / 8) v) plen2 ≡ prefix_cmp p1 plen1 p2 plen2
unfolding prefix_cmp
prefix_cmp-ignores_partial_byte p1 p2 plen1 plen2 v h r = rw (
  v4mapped-set p2 (min plen1 plen2 / 8) v (omega arith),
  memcmp-set (min plen1 plen2 / 8) p1 p2 (min plen1 plen2 / 8) v (omega arith),
  get_or-set_other p2 (min plen1 plen2 / 8) (min plen1 plen2 / 8 + 1) v (omega arith),
)

-- Where the shorter length is a multiple of 8 and both or neither address is a mapped IPv4 address,
-- prefix_cmp finds the prefixes disjoint exactly when the first is not in the second at the
-- shorter length, and otherwise compares the lengths.
pub prefix_cmp-whole_bytes :
    (p1 p2 : List ℕ) (plen1 plen2 : ℕ)
    → min plen1 plen2 % 8 ≡ 0
    → min plen1 plen2 ≤ 128
    → v4mapped p1 ≡ v4mapped p2
    → prefix_cmp p1 plen1 p2 plen2 ≡ (
        if in_prefix p1 p2 (min plen1 plen2)
        then (if ltb plen1 plen2
            then less_specific
            else (if ltb plen2 plen1 then more_specific else equals))
        else disjoint)
unfolding prefix_cmp in_prefix
prefix_cmp-whole_bytes p1 p2 plen1 plen2 r le m =
    rw (m, in_range (min plen1 plen2) le, r) (ground arith)
  where
    in_range : (n : ℕ) → n ≤ 128 → ltb 128 n ≡ false
    in_range n h = ground arith
