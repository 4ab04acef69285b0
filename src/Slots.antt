-- ===== src/Slots.antt =====
-- The sorted tables of source.c and route.c: an array of slots searched by bisection, where a new
-- element is put in by moving the later ones up. `find_source_slot` and `find_route_slot` are this
-- search, each with its own comparison.
pub mod Search
pub mod Order
use rabeld.Prelude.{
  ℕ, zero, suc, ◌+◌, ◌-◌, ◌/◌, Ordering, ltb, if◌then◌else◌, List, [], ◌∷◌, ◌++◌, take, drop,
}

-- What the search returns: the index of the slot, or -1 and, through `new_return`, the index at
-- which the element is to be put in.
pub data Slot : Type 0 where
  found : ℕ → Slot
  absent : ℕ → Slot

-- The loop, over the half-open range from p to `hi`, which is the `g + 1` of the source. `c m` is
-- the comparison of the wanted element with the one in slot m.
unfoldable pub search_loop : (ℕ → Ordering) → ℕ → ℕ → ℕ → Slot
search_loop c zero p hi = absent p
search_loop c (suc fuel) p hi =
    let m : ℕ = (p + hi - 1) / 2 in
    let low : Slot = search_loop c fuel p m in
    let high : Slot = search_loop c fuel (m + 1) hi in
    elim (c m) [
      | Ordering.eq ↦ found m
      | Ordering.lt ↦ if ltb p m then low else absent p
      | Ordering.gt ↦ if ltb (m + 1) hi then high else absent (m + 1)
    ]

-- The search of a table of n slots. The range shrinks in each round, so that n rounds are enough.
unfoldable pub find_slot : (ℕ → Ordering) → ℕ → Slot
unfolding search_loop
find_slot c n = if ltb n 1 then absent 0 else search_loop c n 0 n

-- The array after the elements from n on have moved up by one and x stands at n.
unfoldable pub insert_at {ℓ} : {A : Type ℓ} → ℕ → A → List A → List A
insert_at n x xs = take n xs ++ x ∷ drop n xs
