-- ===== src/Slots/Order.antt =====
-- Sorted arrays under a three-way comparison, and their slots.
use rabeld.Prelude.{
  ℕ, zero, suc, ◌≤◌, ◌<◌, ◌≡◌, ◌≢◌, Ordering, arith, List, [], ◌∷◌, get_or, length, refl, ap,
}
use rabeld.Prelude.Order.{Fits}
use rabeld.Slots.{insert_at}
use rabeld.Slots.Search.{IsMonotone}

module _ {ℓ} {A : Type ℓ} (order : A → A → Ordering) where
  abbrev pub AllAfter : A → List A → Type 0
  AllAfter x [] = Unit
  AllAfter x (y ∷ ys) = (order x y ≡ Ordering.lt) × AllAfter x ys

  -- Strictly ascending, so that no two elements compare equal.
  abbrev pub IsAscending : List A → Type 0
  IsAscending [] = Unit
  IsAscending (x ∷ xs) = AllAfter x xs × IsAscending xs

module _ {ℓ} {A : Type ℓ} (order : A → A → Ordering) (d : A) where
  AllAfter-get_or :
      (x : A) (xs : List A) (j : ℕ)
      → AllAfter order x xs
      → j < length xs
      → order x (get_or xs j d) ≡ Ordering.lt
  AllAfter-get_or x [] j h lt = absurd (omega arith)
  AllAfter-get_or x (y ∷ ys) zero h lt = h.0
  AllAfter-get_or x (y ∷ ys) (suc j) h lt = AllAfter-get_or x ys j h.1 (omega arith)

  pub IsAscending-get_or :
      (xs : List A) (i j : ℕ)
      → IsAscending order xs
      → i < j
      → j < length xs
      → order (get_or xs i d) (get_or xs j d) ≡ Ordering.lt
  IsAscending-get_or [] i j h lt l = absurd (omega arith)
  IsAscending-get_or (x ∷ xs) zero zero h lt l = absurd (omega arith)
  IsAscending-get_or (x ∷ xs) zero (suc j) h lt l = AllAfter-get_or x xs j h.0 (omega arith)
  IsAscending-get_or (x ∷ xs) (suc i) zero h lt l = absurd (omega arith)
  IsAscending-get_or (x ∷ xs) (suc i) (suc j) h lt l =
      IsAscending-get_or xs i j h.1 (omega arith) (omega arith)

  -- A key that is compared with the slots of a sorted table compares monotonically.
  pub IsAscending-IsMonotone :
      (xs : List A) (c : A → Ordering)
      → ((x y : A) → Fits (c x) (order x y) (c y))
      → IsAscending order xs
      → IsMonotone (λ m. c (get_or xs m d)) (length xs)
  IsAscending-IsMonotone xs c fits h = record {
    after = λ i j lt l ne.
        follows (c (get_or xs i d)) (order (get_or xs i d) (get_or xs j d)) (c (get_or xs j d))
          (fits _ _) (IsAscending-get_or xs i j h lt l) ne;
  }
    where
      follows :
          (a b e : Ordering) → Fits a b e → b ≡ Ordering.lt → a ≢ Ordering.gt → e ≡ Ordering.lt
      follows a b e f p q = ground arith

module _ {ℓ} {A : Type ℓ} where
  pub length-insert_at :
      (n : ℕ) (x : A) (xs : List A) → n ≤ length xs → length (insert_at n x xs) ≡ suc (length xs)
  unfolding insert_at
  length-insert_at zero x xs h = refl
  length-insert_at (suc n) x [] h = absurd (omega arith)
  length-insert_at (suc n) x (y ∷ xs) h = ap suc (length-insert_at n x xs (omega arith))

  -- Reading the array after an insertion.
  pub get_or-insert_at :
      (n : ℕ) (x : A) (xs : List A) (d : A) → n ≤ length xs → get_or (insert_at n x xs) n d ≡ x
  unfolding insert_at
  get_or-insert_at zero x xs d h = refl
  get_or-insert_at (suc n) x [] d h = absurd (omega arith)
  get_or-insert_at (suc n) x (y ∷ xs) d h = get_or-insert_at n x xs d (omega arith)

module _ {ℓ} {A : Type ℓ} (order : A → A → Ordering) (d x : A) where
  AllAfter-drop :
      (xs : List A)
      → ((i : ℕ) → i < length xs → order x (get_or xs i d) ≡ Ordering.lt)
      → AllAfter order x xs
  AllAfter-drop [] h = tt
  AllAfter-drop (y ∷ ys) h = (h 0 (omega arith), AllAfter-drop ys (λ i lt. h (suc i) (omega arith)))

  AllAfter-insert_at :
      (n : ℕ) (y : A) (xs : List A)
      → AllAfter order y xs
      → order y x ≡ Ordering.lt
      → AllAfter order y (insert_at n x xs)
  unfolding insert_at
  AllAfter-insert_at zero y xs h e = (e, h)
  AllAfter-insert_at (suc n) y [] h e = (e, tt)
  AllAfter-insert_at (suc n) y (z ∷ xs) h e = (h.0, AllAfter-insert_at n y xs h.1 e)

  -- Putting an element in between the smaller and the greater ones keeps the array sorted.
  pub insert_at-IsAscending :
      (n : ℕ) (xs : List A)
      → n ≤ length xs
      → IsAscending order xs
      → ((i : ℕ) → i < n → order (get_or xs i d) x ≡ Ordering.lt)
      → ((i : ℕ) → n ≤ i → i < length xs → order x (get_or xs i d) ≡ Ordering.lt)
      → IsAscending order (insert_at n x xs)
  unfolding insert_at
  insert_at-IsAscending zero xs le h below above =
      (AllAfter-drop xs (λ i lt. above i (omega arith) lt), h)
  insert_at-IsAscending (suc n) [] le h below above = absurd (omega arith)
  insert_at-IsAscending (suc n) (y ∷ xs) le h below above = (
    AllAfter-insert_at n y xs h.0 (below 0 (omega arith)),
    insert_at-IsAscending n xs (omega arith) h.1 (λ i lt. below (suc i) (omega arith))
        (λ i ge lt. above (suc i) (omega arith) (omega arith)),
  )
