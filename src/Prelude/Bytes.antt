-- ===== src/Prelude/Bytes.antt =====
-- Byte buffers as lists of numbers. A read past the end of the list gives 0; the buffers that the
-- program passes are as long as it says, 16 bytes for an address and 8 for a router's id.
use Prim.Native.Nat.{ℕ, zero, suc, ◌<◌, compare, Ordering}
use mathlib.Core.Path.{◌≡◌, refl}
use mathlib.Core.Bool.{Bool, true, false}
use mathlib.Core.List.{List, [], ◌∷◌}
use native.Mathlib.Omega.{arith}
use rabeld.Prelude.Lists.{get_or, drop}
use rabeld.Prelude.Order.{flip, then_compare, Fits, compare-flip, compare-Fits}
use rabeld.Prelude.Order.{then_compare-flip, then_compare-Fits}

-- `memcmp(p, q, n)`
unfoldable pub memcmp : ℕ → List ℕ → List ℕ → Ordering
memcmp zero p q = Ordering.eq
memcmp (suc n) p q =
    then_compare (compare (get_or p 0 0) (get_or q 0 0)) (memcmp n (drop 1 p) (drop 1 q))

abbrev pub is_eq : Ordering → Bool
is_eq c = elim c [ Ordering.eq ↦ true | _ ↦ false ]

abbrev pub is_lt : Ordering → Bool
is_lt c = elim c [ Ordering.lt ↦ true | _ ↦ false ]

abbrev pub is_gt : Ordering → Bool
is_gt c = elim c [ Ordering.gt ↦ true | _ ↦ false ]

-- `memcmp(p, q, n) == 0`
abbrev pub mem_eq : ℕ → List ℕ → List ℕ → Bool
mem_eq n p q = is_eq (memcmp n p q)

pub memcmp-flip : (n : ℕ) (p q : List ℕ) → memcmp n q p ≡ flip (memcmp n p q)
unfolding memcmp
memcmp-flip zero p q = refl
memcmp-flip (suc n) p q =
    then_compare-flip _ _ _ _ (compare-flip (get_or p 0 0) (get_or q 0 0))
      (memcmp-flip n (drop 1 p) (drop 1 q))

pub memcmp-Fits : (n : ℕ) (p q r : List ℕ) → Fits (memcmp n p q) (memcmp n q r) (memcmp n p r)
unfolding memcmp
memcmp-Fits zero p q r = refl
memcmp-Fits (suc n) p q r =
    then_compare-Fits (compare (get_or p 0 0) (get_or q 0 0))
      (compare (get_or q 0 0) (get_or r 0 0)) (compare (get_or p 0 0) (get_or r 0 0))
      (memcmp n (drop 1 p) (drop 1 q)) (memcmp n (drop 1 q) (drop 1 r))
      (memcmp n (drop 1 p) (drop 1 r)) (compare-Fits (get_or p 0 0) (get_or q 0 0) (get_or r 0 0))
      (memcmp-Fits n (drop 1 p) (drop 1 q) (drop 1 r))

get_or-drop_one : (p : List ℕ) (i : ℕ) → get_or (drop 1 p) i 0 ≡ get_or p (suc i) 0
get_or-drop_one [] i = refl
get_or-drop_one (x ∷ p) i = refl

pub memcmp-eq-get :
    (n : ℕ) (p q : List ℕ)
    → memcmp n p q ≡ Ordering.eq
    → (i : ℕ) → i < n
    → get_or p i 0 ≡ get_or q i 0
unfolding memcmp
memcmp-eq-get zero p q e i h = elim h [ ]
memcmp-eq-get (suc n) p q e zero h = ground arith
memcmp-eq-get (suc n) p q e (suc i) h =
    rw (← get_or-drop_one p i, ← get_or-drop_one q i)
      (memcmp-eq-get n (drop 1 p) (drop 1 q) (ground arith) i (omega arith))

pub memcmp-eq_of_get :
    (n : ℕ) (p q : List ℕ)
    → ((i : ℕ) → i < n → get_or p i 0 ≡ get_or q i 0)
    → memcmp n p q ≡ Ordering.eq
unfolding memcmp
memcmp-eq_of_get zero p q h = refl
memcmp-eq_of_get (suc n) p q h =
    rw
      (memcmp-eq_of_get n (drop 1 p) (drop 1 q)
        (λ i lt. rw (get_or-drop_one p i, get_or-drop_one q i) (h (suc i) (omega arith))))
      (ground (arith, h 0 (omega arith)))

pub memcmp_refl : (n : ℕ) (p : List ℕ) → memcmp n p p ≡ Ordering.eq
memcmp_refl n p = memcmp-eq_of_get n p p (λ i h. refl)
