-- ===== src/Source/Table.antt =====
-- source.c: find_source on the sorted table.
use rabeld.Prelude.{
  ℕ, zero, suc, ◌≤◌, ◌<◌, ◌≡◌, ◌≢◌, Ordering, arith, List, [], ◌∷◌, get_or, length, refl, Bool,
  true, false, ap, not, leb, Bool-cases, inl, inr, ◌⊎◌, Option, some, none, take, drop,
  if◌then◌else◌, sym,
}
use native.Mathlib.Decide.{dec_lt}
use rabeld.Prelude.Order.{flip}
use rabeld.Prelude.Bytes.{memcmp, is_eq}
use rabeld.Slots.{Slot, found, absent, insert_at}
use rabeld.Slots.Search.{IsAnswer, IsMonotone, find_slot-IsAnswer}
use rabeld.Slots.Order.{
  IsAscending-IsMonotone, insert_at-IsAscending, length-insert_at, get_or-insert_at,
}
use rabeld.Source.{
  Source, SourceTable, source_compare, source_slots, find_source_slot, find_source, create_source,
  Memory, new_source, blank, make_room,
}
use rabeld.Source.Order.{order, IsSorted, source_compare-Fits, order-flip}

memcmp-take : (n m : ℕ) (p q : List ℕ) → n ≤ m → memcmp n (take m p) q ≡ memcmp n p q
unfolding memcmp
memcmp-take zero m p q h = refl
memcmp-take (suc n) zero p q h = absurd (omega arith)
memcmp-take (suc n) (suc m) [] q h = refl
memcmp-take (suc n) (suc m) (x ∷ p) q h = rw (memcmp-take n m p (drop 1 q) (omega arith))

-- The key that a caller asks for.
module _ (id prefix : List ℕ) (plen : ℕ) (src_prefix : List ℕ) (src_plen : ℕ) where
  abbrev pub compare_with : Source → Ordering
  compare_with = source_compare id prefix plen src_prefix src_plen

  find_source_slot-IsAnswer :
      (t : SourceTable)
      → IsSorted t.sources
      → IsAnswer
          (λ m. compare_with (get_or t.sources m blank))
          (source_slots t)
          (find_source_slot id prefix plen src_prefix src_plen t)
  unfolding find_source_slot
  find_source_slot-IsAnswer t h =
      find_slot-IsAnswer (λ m. compare_with (get_or t.sources m blank)) (source_slots t)
        (IsAscending-IsMonotone order blank t.sources compare_with
          (λ x y. source_compare-Fits id prefix src_prefix plen src_plen x y) h)

  -- The first source of a list that has the key: what a search from the front would find.
  unfoldable pub first_match : List Source → Option Source
  first_match [] = none
  first_match (src ∷ rest) = if is_eq (compare_with src) then some src else first_match rest

  first_match_found :
      (xs : List Source) (m : ℕ)
      → m < length xs
      → compare_with (get_or xs m blank) ≡ Ordering.eq
      → ((i : ℕ) → i < m → compare_with (get_or xs i blank) ≡ Ordering.gt)
      → first_match xs ≡ some (get_or xs m blank)
  unfolding first_match
  first_match_found [] m lt e h = absurd (omega arith)
  first_match_found (x ∷ xs) zero lt e h = rw e
  first_match_found (x ∷ xs) (suc m) lt e h =
      rw (h 0 (omega arith))
        (first_match_found xs m (omega arith) e (λ i l. h (suc i) (omega arith)))

  first_match_absent :
      (xs : List Source)
      → ((i : ℕ) → i < length xs → is_eq (compare_with (get_or xs i blank)) ≡ false)
      → first_match xs ≡ none
  unfolding first_match
  first_match_absent [] h = refl
  first_match_absent (x ∷ xs) h =
      rw (h 0 (omega arith)) (first_match_absent xs (λ i lt. h (suc i) (omega arith)))

  -- The source in the slot that a search returned.
  abbrev pub source_at : SourceTable → Slot → Option Source
  source_at t (found m) = some (get_or t.sources m blank)
  source_at t (absent p) = none

  source_at-answer :
      (t : SourceTable) (s : Slot)
      → IsMonotone (λ m. compare_with (get_or t.sources m blank)) (source_slots t)
      → IsAnswer (λ m. compare_with (get_or t.sources m blank)) (source_slots t) s
      → source_at t s ≡ first_match t.sources
  source_at-answer t (found m) mono (lt, e) = sym (
      first_match_found t.sources m lt e (λ i l.
        before (compare_with (get_or t.sources i blank)) (compare_with (get_or t.sources m blank))
          (mono.after i m l lt) e))
    where
      before :
          (a b : Ordering) → (a ≢ Ordering.gt → b ≡ Ordering.lt) → b ≡ Ordering.eq → a ≡ Ordering.gt
      before a b h e = ground arith
  source_at-answer t (absent p) mono (le, below, above) = sym (
      first_match_absent t.sources (λ i lt. elim (dec_lt i p) [
        | yes l ↦ ap is_eq (below i l)
        | no nl ↦ ap is_eq (above i (omega arith) lt)
      ]))

  -- On a sorted table the bisection finds the source that a search from the front would find, and
  -- nothing where that finds nothing.
  pub find_source_slot-first_match :
      (t : SourceTable)
      → IsSorted t.sources
      → source_at t (find_source_slot id prefix plen src_prefix src_plen t) ≡ first_match t.sources
  find_source_slot-first_match t h =
      source_at-answer t (find_source_slot id prefix plen src_prefix src_plen t)
        (IsAscending-IsMonotone order blank t.sources compare_with
          (λ x y. source_compare-Fits id prefix src_prefix plen src_plen x y) h)
        (find_source_slot-IsAnswer t h)

  -- A created source has the key that it was created for.
  order-new_source :
      (seqno now : ℕ) (s : Source)
      → order (new_source id prefix plen src_prefix src_plen seqno now) s ≡ compare_with s
  unfolding order new_source source_compare
  order-new_source seqno now s = rw (
    memcmp-take 8 8 id s.id (omega arith),
    memcmp-take 16 16 prefix s.prefix (omega arith),
    memcmp-take 16 16 src_prefix s.src_prefix (omega arith),
  )

  -- The router-id, the prefix, its length and the source prefix are those asked for. Nothing is said
  -- of the length of the source prefix.
  abbrev pub AgreesWith : Source → Type 0
  AgreesWith src =
      (memcmp 8 id src.id ≡ Ordering.eq)
      × (plen ≡ src.plen)
      × (memcmp 16 prefix src.prefix ≡ Ordering.eq)
      × (memcmp 16 src_prefix src.src_prefix ≡ Ordering.eq)

  agrees : (src : Source) → compare_with src ≡ Ordering.eq → AgreesWith src
  unfolding source_compare
  agrees src e = (ground (arith, e), ground (arith, e), ground (arith, e), ground (arith, e))

  -- What find_source promises on a table t, by its result.
  abbrev pub IsResult : ℕ → ℕ → SourceTable → SourceTable × Option ℕ → Type 0
  IsResult seqno now t (t', some i) =
      (i < source_slots t')
      × AgreesWith (get_or t'.sources i blank)
      × ((t'.sources ≡ t.sources)
          ⊎ (t'.sources
              ≡ insert_at i (new_source id prefix plen src_prefix src_plen seqno now) t.sources))
  IsResult seqno now t (t', none) = t'.sources ≡ t.sources

sources-make_room : (b : Bool) (t : SourceTable) → (make_room b t).sources ≡ t.sources
unfolding make_room
sources-make_room b t = ground arith

module _ (id prefix : List ℕ) (plen : ℕ) (src_prefix : List ℕ) (src_plen : ℕ) where
  module _ (memory : Memory) (now seqno : ℕ) (t : SourceTable) (sorted : IsSorted t.sources) where
    abbrev made : Source
    made = new_source id prefix plen src_prefix src_plen seqno now

    -- An order that turns round with its arguments finds each element equal to itself.
    self_eq : (o : Ordering) → o ≡ flip o → o ≡ Ordering.eq
    self_eq o e = ground arith

    made-eq : compare_with id prefix plen src_prefix src_plen made ≡ Ordering.eq
    made-eq =
        rw (← order-new_source id prefix plen src_prefix src_plen seqno now made)
          (self_eq (order made made) (order-flip made made))

    inserted :
        (n : ℕ)
        → IsAnswer
            (λ m. compare_with id prefix plen src_prefix src_plen (get_or t.sources m blank))
            (source_slots t)
            (absent n)
        → IsSorted (insert_at n made t.sources)
    inserted n (le, below, above) =
        insert_at-IsAscending order blank made n t.sources le sorted
          (λ i lt. rw (
            order-flip made (get_or t.sources i blank),
            order-new_source id prefix plen src_prefix src_plen seqno now
                (get_or t.sources i blank),
            below i lt,
          ))
          (λ i ge lt.
            rw
              (order-new_source id prefix plen src_prefix src_plen seqno now
                (get_or t.sources i blank))
              (above i ge lt))

    abbrev Good : SourceTable × Option ℕ → Type 0
    Good r = IsSorted r.0.sources × IsResult id prefix plen src_prefix src_plen seqno now t r

    create_source-Good :
        (n : ℕ)
        → IsAnswer
            (λ m. compare_with id prefix plen src_prefix src_plen (get_or t.sources m blank))
            (source_slots t)
            (absent n)
        → Good (create_source memory n made t)
    unfolding create_source
    create_source-Good n a = elim (Bool-cases memory.calloc) [
      | inr no_memory ↦ rw no_memory (sorted, refl)
      | inl memory' ↦
          rw (memory', sources-make_room memory.realloc t)
            (elim (Bool-cases
              (leb (make_room memory.realloc t).max_source_slots (source_slots t))) [
                | inl full ↦ rw full (sorted, refl)
                | inr room ↦ rw room (
                  inserted n a,
                  (
                    omega (arith, length-insert_at n made t.sources a.0),
                    rw (get_or-insert_at n made t.sources blank a.0)
                        (agrees id prefix plen src_prefix src_plen made made-eq),
                    inr refl,
                  ),
                )
              ])
    ]

    settled :
        (create : Bool) (s : Slot)
        → IsAnswer
            (λ m. compare_with id prefix plen src_prefix src_plen (get_or t.sources m blank))
            (source_slots t)
            s
        → Good (elim s [
          | found i ↦ (t, some i)
          | absent n ↦ if not create then (t, none) else create_source memory n made t
        ])
    settled create (found i) (lt, e) =
        (sorted, (lt, agrees id prefix plen src_prefix src_plen _ e, inl refl))
    settled true (absent n) a = create_source-Good n a
    settled false (absent n) a = (sorted, refl)

    -- find_source keeps the table sorted. A source that it returns has the wanted router-id, prefix,
    -- prefix length and source prefix (the length of the source prefix is not compared), and stands at
    -- the returned index either of the table as it was or of the table with a new source put in there.
    -- The new source is of exactly the key, source prefix length and seqno asked for. Where it returns NULL no source has changed.
    pub find_source_lem :
        (create : Bool)
        → let r = find_source memory now id prefix plen src_prefix src_plen create seqno t in
          IsSorted r.0.sources × IsResult id prefix plen src_prefix src_plen seqno now t r
    unfolding find_source
    find_source_lem create =
        settled create (find_source_slot id prefix plen src_prefix src_plen t)
          (find_source_slot-IsAnswer id prefix plen src_prefix src_plen t sorted)
