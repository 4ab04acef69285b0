-- ===== src/Slots/Search.antt =====
-- The bisection finds the wanted slot of a sorted table, or the place to put it in.
use rabeld.Prelude.{
  ℕ, zero, suc, ◌+◌, ◌-◌, ◌/◌, ◌≤◌, ◌<◌, ◌≡◌, ◌≢◌, Ordering, arith, ltb, if◌then◌else◌, inl, inr,
  ◌⊎◌, refl, Bool, true, false,
}
use rabeld.Slots.{Slot, found, absent, search_loop, find_slot}

-- The comparisons with the slots are first `gt`, then at most once `eq`, then `lt`.
pub record IsMonotone (c : ℕ → Ordering) (n : ℕ) : Type 0 where
  pub after : (i j : ℕ) → i < j → j < n → c i ≢ Ordering.gt → c j ≡ Ordering.lt

-- What a search has to return.
abbrev pub IsAnswer : (ℕ → Ordering) → ℕ → Slot → Type 0
IsAnswer c n (found m) = (m < n) × (c m ≡ Ordering.eq)
IsAnswer c n (absent p) =
    (p ≤ n) × ((i : ℕ) → i < p → c i ≡ Ordering.gt) × ((i : ℕ) → p ≤ i → i < n → c i ≡ Ordering.lt)

pub Ordering-cases : (o : Ordering) → (o ≡ Ordering.lt) ⊎ ((o ≡ Ordering.eq) ⊎ (o ≡ Ordering.gt))
Ordering-cases Ordering.lt = inl refl
Ordering-cases Ordering.eq = inr (inl refl)
Ordering-cases Ordering.gt = inr (inr refl)

module _ (c : ℕ → Ordering) (n : ℕ) (mono : IsMonotone c n) where
  -- Slots before one that compares `gt` compare `gt`.
  gt_before : (i m : ℕ) → i ≤ m → m < n → c m ≡ Ordering.gt → c i ≡ Ordering.gt
  gt_before i m le lt e = ground (arith, mono.after i m)

  -- Slots after one that compares `lt` compare `lt`.
  lt_after : (m i : ℕ) → m ≤ i → i < n → c m ≡ Ordering.lt → c i ≡ Ordering.lt
  lt_after m i le lt e = ground (arith, mono.after m i)

  either :
      (b : Bool) (x y : Slot)
      → (b ≡ true → IsAnswer c n x)
      → (b ≡ false → IsAnswer c n y)
      → IsAnswer c n (if b then x else y)
  either true x y p q = p refl
  either false x y p q = q refl

  -- Each round keeps the slots before p greater and those from `hi` on less.
  search_loop-IsAnswer :
      (fuel p hi : ℕ)
      → hi ≤ p + fuel
      → p < hi
      → hi ≤ n
      → ((i : ℕ) → i < p → c i ≡ Ordering.gt)
      → ((i : ℕ) → hi ≤ i → i < n → c i ≡ Ordering.lt)
      → IsAnswer c n (search_loop c fuel p hi)
  unfolding search_loop
  search_loop-IsAnswer zero p hi room p_lt hi_le below above = absurd (omega arith)
  search_loop-IsAnswer (suc fuel) p hi room p_lt hi_le below above =
      elim (Ordering-cases (c ((p + hi - 1) / 2))) [
        | inl l ↦
            rw (l, IsAnswer)
              (either (ltb p ((p + hi - 1) / 2)) _ _
                (λ t.
                  search_loop-IsAnswer fuel p ((p + hi - 1) / 2) (omega arith) (ground arith)
                    (omega arith) below (λ i le lt. lt_after ((p + hi - 1) / 2) i le lt l))
                (λ t. (
                  omega arith,
                  below,
                  λ i le lt. lt_after ((p + hi - 1) / 2) i (ground arith) lt l,
                )))
        | inr (inl q) ↦ rw (q, IsAnswer) (omega arith, q)
        | inr (inr g) ↦
            rw (g, IsAnswer)
              (either (ltb ((p + hi - 1) / 2 + 1) hi) _ _
                (λ t.
                  search_loop-IsAnswer fuel ((p + hi - 1) / 2 + 1) hi (omega arith) (ground arith)
                    hi_le (λ i lt. gt_before i ((p + hi - 1) / 2) (omega arith) (omega arith) g)
                    above)
                (λ t. (
                  omega arith,
                  λ i lt. gt_before i ((p + hi - 1) / 2) (omega arith) (omega arith) g,
                  λ i le lt. above i (ground arith) lt,
                )))
      ]

  -- On a sorted table the search finds the slot that compares equal. If there is none, it returns
  -- the index before which all slots are less and from which on all are greater.
  pub find_slot-IsAnswer : IsAnswer c n (find_slot c n)
  unfolding find_slot
  find_slot-IsAnswer =
      either (ltb n 1) _ _
        (λ e. (omega arith, (λ i lt. absurd (omega arith)), λ i le lt. absurd (ground arith)))
        (λ e.
          search_loop-IsAnswer n 0 n (omega arith) (ground arith) (omega arith)
            (λ i lt. absurd (omega arith)) (λ i le lt. absurd (omega arith)))
