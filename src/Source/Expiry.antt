-- ===== src/Source/Expiry.antt =====
-- source.c: expire_sources compacts the array in place; what it leaves is a plain filter.
use rabeld.Prelude.{
  ℕ, zero, suc, ◌+◌, ◌≡◌, arith, List, [], ◌∷◌, ◌++◌, get_or, set, length, refl, true, false, ap,
  Bool-cases, inl, inr, Option, some, none, take, if◌then◌else◌, ◌∙◌, ltb, sym,
}
use mathlib.Core.List.{append_assoc, append-nil}
use rabeld.Prelude.{length-append}
use rabeld.Slots.Order.{AllAfter}
use rabeld.Source.{
  Source, SourceTable, source_compare, Cells, cells_of, contents, expire_loop, expire_sources,
  not_later, is_expired,
}
use rabeld.Source.Order.{order, IsSorted}

-- The sources that survive, each with its time put right.
unfoldable pub survivors : ℕ → List Source → List Source
survivors now [] = []
survivors now (src ∷ rest) =
    if is_expired now (not_later now src)
    then survivors now rest
    else not_later now src ∷ survivors now rest

-- n cells that hold NULL
abbrev nones : ℕ → Cells
nones zero = []
nones (suc n) = none ∷ nones n

-- The array while the loop runs: the sources kept, n empty cells, and the sources still to come.
abbrev state : List Source → ℕ → List Source → Cells
state kept n rest = cells_of kept ++ (nones n ++ cells_of rest)

length-cells_of : (xs : List Source) → length (cells_of xs) ≡ length xs
length-cells_of [] = refl
length-cells_of (x ∷ xs) = ap suc (length-cells_of xs)

length-nones : (n : ℕ) → length (nones n) ≡ n
length-nones zero = refl
length-nones (suc n) = ap suc (length-nones n)

-- The cell behind the first ones.
get_or-behind :
    (pre : Cells) (c : Option Source) (post : Cells)
    → get_or (pre ++ c ∷ post) (length pre) none ≡ c
get_or-behind [] c post = refl
get_or-behind (x ∷ pre) c post = get_or-behind pre c post

set-behind :
    (pre : Cells) (c v : Option Source) (post : Cells)
    → set (pre ++ c ∷ post) (length pre) v ≡ pre ++ v ∷ post
set-behind [] c v post = refl
set-behind (x ∷ pre) c v post = ap (λ t. x ∷ t) (set-behind pre c v post)

nones-suc : (n : ℕ) (post : Cells) → nones n ++ none ∷ post ≡ nones (suc n) ++ post
nones-suc zero post = refl
nones-suc (suc n) post = ap (λ t. none ∷ t) (nones-suc n post)

cells_of-append : (xs ys : List Source) → cells_of (xs ++ ys) ≡ cells_of xs ++ cells_of ys
cells_of-append [] ys = refl
cells_of-append (x ∷ xs) ys = ap (λ t. some x ∷ t) (cells_of-append xs ys)

-- The cell that the loop reads in a round.
module _ (kept : List Source) (n : ℕ) (src : Source) (rest : List Source) where
  abbrev before_i : Cells
  before_i = cells_of kept ++ nones n

  abbrev i_now : ℕ
  i_now = length kept + n

  length-before_i : length before_i ≡ i_now
  length-before_i =
      length-append (cells_of kept) (nones n) ∙ omega (arith, length-cells_of kept, length-nones n)

  split_state :
      (c : Option Source)
      → before_i ++ c ∷ cells_of rest ≡ cells_of kept ++ (nones n ++ c ∷ cells_of rest)
  split_state c = append_assoc (cells_of kept) (nones n) (c ∷ cells_of rest)

  read_i : get_or (state kept n (src ∷ rest)) i_now none ≡ some src
  read_i =
      rw (← split_state (some src), ← length-before_i)
        (get_or-behind before_i (some src) (cells_of rest))

  write_i :
      (v : Option Source)
      → set (state kept n (src ∷ rest)) i_now v ≡ cells_of kept ++ (nones n ++ v ∷ cells_of rest)
  write_i v =
      rw (← split_state (some src), ← split_state v, ← length-before_i)
        (set-behind before_i (some src) v (cells_of rest))

  -- Dropping the source leaves one more empty cell.
  drop_i : set (state kept n (src ∷ rest)) i_now none ≡ state kept (suc n) rest
  drop_i = write_i none ∙ ap (λ t. cells_of kept ++ t) (nones-suc n (cells_of rest))

snoc_state :
    (kept : List Source) (n : ℕ) (src : Source) (rest : List Source)
    → cells_of kept ++ some src ∷ (nones n ++ cells_of rest) ≡ state (kept ++ src ∷ []) n rest
snoc_state kept n src rest = rw (cells_of-append kept (src ∷ []), append_assoc)

-- The array after a round that keeps the source at i.
abbrev moved : ℕ → ℕ → Cells → Source → Cells
moved i j cells src' =
    if ltb j i
    then set (set (set cells i (some src')) j (some src')) i none
    else set cells i (some src')

keep_i :
    (kept : List Source) (n : ℕ) (src src' : Source) (rest : List Source)
    → moved (length kept + n) (length kept) (state kept n (src ∷ rest)) src'
      ≡ state (kept ++ src' ∷ []) n rest
keep_i kept zero src src' rest =
    rw (same (length kept), write_i kept zero src rest (some src')) (snoc_state kept zero src' rest)
  where
    same : (k : ℕ) → ltb k (k + 0) ≡ false
    same k = ground arith
keep_i kept (suc n) src src' rest =
    rw
      (
        less (length kept),
        write_i kept (suc n) src rest (some src'),
        ← length-cells_of kept,
        set-behind (cells_of kept) none (some src') (nones n ++ some src' ∷ cells_of rest),
        snoc_state kept n src' (src' ∷ rest),
        index,
      )
      (drop_i (kept ++ src' ∷ []) n src' rest)
  where
    less : (k : ℕ) → ltb k (k + suc n) ≡ true
    less k = ground arith

    index : length (cells_of kept) + suc n ≡ length (kept ++ src' ∷ []) + n
    index = omega (arith, length-cells_of kept, length-append kept (src' ∷ []))

contents-cells_of :
    (xs : List Source) (post : Cells) → contents (take (length xs) (cells_of xs ++ post)) ≡ xs
contents-cells_of [] post = refl
contents-cells_of (x ∷ xs) post = ap (λ t. x ∷ t) (contents-cells_of xs post)

abbrev result : Cells × ℕ → List Source
result r = contents (take r.1 r.0)

-- One round of the loop at a cell that holds a source.
expire_round :
    (rounds now : ℕ) (cells : Cells) (i j : ℕ) (src : Source)
    → get_or cells i none ≡ some src
    → expire_loop (suc rounds) now cells i j ≡ (
        if is_expired now (not_later now src)
        then expire_loop rounds now (set cells i none) (i + 1) j
        else expire_loop rounds now (moved i j cells (not_later now src)) (i + 1) (j + 1))
unfolding expire_loop
expire_round rounds now cells i j src e = rw (e, expire_loop)

expire_loop_lem :
    (now : ℕ) (kept : List Source) (n : ℕ) (rest : List Source)
    → result (expire_loop (length rest) now (state kept n rest) (length kept + n) (length kept))
      ≡ kept ++ survivors now rest
unfolding survivors
expire_loop_lem now kept n [] =
    unfold expire_loop in contents-cells_of kept (nones n ++ []) ∙ sym (append-nil kept)
expire_loop_lem now kept n (src ∷ rest) =
    rw
      (expire_round (length rest) now (state kept n (src ∷ rest)) (length kept + n) (length kept)
        src (read_i kept n src rest))
      (elim (Bool-cases (is_expired now (not_later now src))) [
        | inl gone ↦
            rw (gone, drop_i kept n src rest, up (length kept))
              (expire_loop_lem now kept (suc n) rest)
        | inr stays ↦
            rw (stays, keep_i kept n src (not_later now src) rest, next_i, next_j)
              (expire_loop_lem now (kept ++ not_later now src ∷ []) n rest
                ∙ append_assoc kept (not_later now src ∷ []) (survivors now rest))
      ])
  where
    up : (k : ℕ) → k + n + 1 ≡ k + suc n
    up k = omega arith

    next_i : length kept + n + 1 ≡ length (kept ++ not_later now src ∷ []) + n
    next_i = omega (arith, length-append kept (not_later now src ∷ []))

    next_j : length kept + 1 ≡ length (kept ++ not_later now src ∷ [])
    next_j = omega (arith, length-append kept (not_later now src ∷ []))

-- expire_sources leaves exactly the sources that are not expired, in their order and with their
-- times put right, whatever the moves within the array.
pub expire_sources_lem :
    (now : ℕ) (t : SourceTable) → (expire_sources now t).sources ≡ survivors now t.sources
unfolding expire_sources
expire_sources_lem now t = expire_loop_lem now [] 0 t.sources

-- Putting a time right does not change the key.
order-not_later : (now : ℕ) (s t : Source) → order (not_later now s) (not_later now t) ≡ order s t
unfolding order source_compare
order-not_later now s t = ground arith

AllAfter-survivors :
    (now : ℕ) (s : Source) (xs : List Source)
    → AllAfter order s xs
    → AllAfter order (not_later now s) (survivors now xs)
unfolding survivors
AllAfter-survivors now s [] h = tt
AllAfter-survivors now s (x ∷ xs) h = elim (Bool-cases (is_expired now (not_later now x))) [
  | inl gone ↦ rw gone (AllAfter-survivors now s xs h.1)
  | inr stays ↦ rw (stays, order-not_later) (h.0, AllAfter-survivors now s xs h.1)
]

survivors-IsSorted : (now : ℕ) (xs : List Source) → IsSorted xs → IsSorted (survivors now xs)
unfolding survivors
survivors-IsSorted now [] h = tt
survivors-IsSorted now (x ∷ xs) h = elim (Bool-cases (is_expired now (not_later now x))) [
  | inl gone ↦ rw gone (survivors-IsSorted now xs h.1)
  | inr stays ↦ rw stays (AllAfter-survivors now x xs h.0, survivors-IsSorted now xs h.1)
]

-- expire_sources keeps the table sorted.
pub expire_sources-IsSorted :
    (now : ℕ) (t : SourceTable) → IsSorted t.sources → IsSorted (expire_sources now t).sources
expire_sources-IsSorted now t h = rw expire_sources_lem (survivors-IsSorted now t.sources h)
