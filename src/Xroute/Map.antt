-- ===== src/Xroute/Map.antt =====
-- xroute.c: what the array says of a destination.
use rabeld.Prelude.{
  ℕ, zero, suc, ◌<◌, ◌≡◌, refl, arith, Ordering, Bool, true, false, if◌then◌else◌, Bool-cases, inl,
  inr, ◌≢◌, List, [], ◌∷◌, get_or, length, Option, some, none, sym, ◌∙◌,
}
use rabeld.Prelude.Order.{Fits}
use rabeld.Prelude.Bytes.{memcmp, is_eq, memcmp-Fits, memcmp_refl}
use rabeld.Util.Prefix.{v6_equal}
use rabeld.Resend.{Destination}
use rabeld.Xroute.{Xroute, same_destination, blank}

v6_equal-cong : (p q r : List ℕ) → v6_equal p q ≡ true → v6_equal r q ≡ v6_equal r p
unfolding v6_equal
v6_equal-cong p q r e =
    same (memcmp 16 r p) (memcmp 16 p q) (memcmp 16 r q) (memcmp-Fits 16 r p q) (ground arith)
  where
    same : (a b c : Ordering) → Fits a b c → b ≡ Ordering.eq → is_eq c ≡ is_eq a
    same a b c f e = ground arith

pub same_destination-cong :
    (d x y : Destination)
    → same_destination d x ≡ true
    → same_destination d y ≡ same_destination x y
unfolding same_destination
same_destination-cong d x y e =
    let p : x.plen ≡ d.plen = ground arith in
    let s : x.src_plen ≡ d.src_plen = ground arith in
    rw
      (
        sym p,
        sym s,
        v6_equal-cong x.prefix d.prefix y.prefix (ground arith),
        v6_equal-cong x.src_prefix d.src_prefix y.src_prefix (ground arith),
      )
      refl

-- What the array says of a destination: the first element that has it.
unfoldable pub lookup : Destination → List Xroute → Option Xroute
lookup d [] = none
lookup d (x ∷ xs) = if same_destination d x.to then some x else lookup d xs

-- No destination stands twice.
abbrev pub AllDistinct : List Xroute → Type 0
AllDistinct [] = Unit
AllDistinct (x ∷ xs) = (lookup x.to xs ≡ none) × AllDistinct xs

pub lookup-cong :
    (d x : Destination) (xs : List Xroute) → same_destination d x ≡ true → lookup d xs ≡ lookup x xs
unfolding lookup
lookup-cong d x [] e = refl
lookup-cong d x (y ∷ ys) e = rw (same_destination-cong d x y.to e, lookup-cong d x ys e) refl

pub lookup-some :
    (d : Destination) (xs : List Xroute) (i : ℕ)
    → i < length xs
    → same_destination d (get_or xs i blank).to ≡ true
    → lookup d xs ≢ none
unfolding lookup
lookup-some d [] i lt e n = absurd (omega arith)
lookup-some d (x ∷ xs) zero lt e n = absurd (ground (arith, e))
lookup-some d (x ∷ xs) (suc i) lt e n = elim (Bool-cases (same_destination d x.to)) [
  | inl y ↦ absurd (ground (arith, y))
  | inr y ↦ lookup-some d xs i (omega arith) e (ground (arith, y))
]

pub same_destination_refl : (d : Destination) → same_destination d d ≡ true
unfolding same_destination v6_equal
same_destination_refl d = ground (arith, memcmp_refl 16 d.prefix, memcmp_refl 16 d.src_prefix)

pub same_destination-flip : (d x : Destination) → same_destination d x ≡ same_destination x d
same_destination-flip d x = elim (Bool-cases (same_destination d x)) [
  | inl e ↦ e ∙ sym (sym (same_destination-cong d x d e) ∙ same_destination_refl d)
  | inr n ↦ elim (Bool-cases (same_destination x d)) [
    | inr n' ↦ n ∙ sym n'
    | inl e ↦
        let same = sym (same_destination-cong x d x e) ∙ same_destination_refl x in
        absurd (ground (arith, same, n))
  ]
]

-- Destinations that are the same are so for each other one.
pub same_destination-other :
    (c d x : Destination)
    → same_destination d x ≡ true
    → same_destination c x ≡ same_destination c d
same_destination-other c d x e =
    same_destination-flip c x ∙ sym (same_destination-cong d x c e) ∙ same_destination-flip d c

pub lookup_none :
    (y : Xroute) (b : Bool) (o : Option Xroute)
    → (if b then some y else o) ≡ none
    → (b ≡ false) × (o ≡ none)
lookup_none y true o e = absurd (ground (arith, e))
lookup_none y false o e = (refl, e)
