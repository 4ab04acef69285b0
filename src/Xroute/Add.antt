-- ===== src/Xroute/Add.antt =====
-- xroute.c: add_xroute, on the array as a map from destinations to metrics.
use rabeld.Prelude.{
  ℕ, zero, suc, ◌≤◌, ◌<◌, ◌≡◌, refl, arith, Bool, true, false, leb, if◌then◌else◌, Bool-cases,
  Option-cases, inl, inr, ◌⊎◌, List, [], ◌∷◌, ◌++◌, get_or, set, min, length, Option, some, none,
  ap, subst, sym, ◌∙◌,
}
use rabeld.Resend.{Destination}
use rabeld.Xroute.{
  Xroute, XrouteTable, Added, no_memory, same_destination, find_xroute, make_room, add_xroute,
  blank, Notice,
}
use rabeld.Xroute.Map.{
  same_destination-cong, same_destination-flip, same_destination-other, lookup, AllDistinct,
  lookup-cong, lookup_none,
}

abbrev pub metric_of : Option Xroute → Option ℕ
metric_of none = none
metric_of (some x) = some x.metric

abbrev later_index : Option ℕ → Option ℕ
later_index none = none
later_index (some i) = some (suc i)

index_none :
    (b : Bool) (o : Option ℕ)
    → (if b then some 0 else later_index o) ≡ none
    → (b ≡ false) × (o ≡ none)
index_none true o e = absurd (ground (arith, e))
index_none false none e = (refl, refl)
index_none false (some i) e = absurd (ground (arith, e))

index_some :
    (b : Bool) (o : Option ℕ) (i : ℕ)
    → (if b then some 0 else later_index o) ≡ some i
    → ((b ≡ true) × (i ≡ 0)) ⊎ ((b ≡ false) × ((j : ℕ) × (o ≡ some j) × (i ≡ suc j)))
index_some true o i e = inl (refl, ground (arith, e))
index_some false none i e = absurd (ground (arith, e))
index_some false (some j) i e = inr (refl, (j, refl, ground (arith, e)))

as_index :
    (d : Destination) (x : Xroute) (xs : List Xroute)
    → (if same_destination d x.to then some 0 else later_index (find_xroute d xs))
      ≡ find_xroute d (x ∷ xs)
unfolding find_xroute
as_index d x xs = elim (Option-cases (find_xroute d xs)) [
  | inl e ↦ rw e refl
  | inr (i, e) ↦ rw e refl
]

find_xroute-none :
    (d : Destination) (xs : List Xroute) → find_xroute d xs ≡ none → lookup d xs ≡ none
unfolding find_xroute lookup
find_xroute-none d [] e = refl
find_xroute-none d (x ∷ xs) e =
    let (n, later) =
      index_none (same_destination d x.to) (find_xroute d xs) (as_index d x xs ∙ e) in
    rw n (find_xroute-none d xs later)

-- Where it is found, the answer is the element with the index.
find_xroute-some :
    (d : Destination) (xs : List Xroute) (i : ℕ)
    → find_xroute d xs ≡ some i
    → lookup d xs ≡ some (get_or xs i blank)
unfolding find_xroute lookup
find_xroute-some d [] i e = absurd (ground (arith, e))
find_xroute-some d (x ∷ xs) i e =
    elim (index_some (same_destination d x.to) (find_xroute d xs) i (as_index d x xs ∙ e)) [
      | inl (y, z) ↦
          subst (λ i. lookup d (x ∷ xs) ≡ some (get_or (x ∷ xs) i blank)) (sym z) (rw y refl)
      | inr (n, (j, later, z)) ↦
          subst (λ i. lookup d (x ∷ xs) ≡ some (get_or (x ∷ xs) i blank)) (sym z)
            (rw n (find_xroute-some d xs j later))
    ]

-- What a new metric for the element that was found changes.
found-lookup :
    (d c : Destination) (xs : List Xroute) (i metric : ℕ)
    → find_xroute d xs ≡ some i
    → metric_of (lookup c (set xs i (record (get_or xs i blank) { metric = metric })))
      ≡ (if same_destination c d then some metric else metric_of (lookup c xs))
unfolding find_xroute lookup
found-lookup d c [] i metric e = absurd (ground (arith, e))
found-lookup d c (x ∷ xs) i metric e =
    elim (index_some (same_destination d x.to) (find_xroute d xs) i (as_index d x xs ∙ e)) [
      | inl (y, z) ↦
          subst
            (λ i.
              metric_of
                (lookup c (set (x ∷ xs) i (record (get_or (x ∷ xs) i blank) { metric = metric })))
              ≡ (if same_destination c d then some metric else metric_of (lookup c (x ∷ xs))))
            (sym z)
            (elim (Bool-cases (same_destination c d)) [
              | inl h ↦ rw (same_destination-other c d x.to y ∙ h, h) refl
              | inr h ↦ rw (same_destination-other c d x.to y ∙ h, h) refl
            ])
      | inr (n, (j, later, z)) ↦
          subst
            (λ i.
              metric_of
                (lookup c (set (x ∷ xs) i (record (get_or (x ∷ xs) i blank) { metric = metric })))
              ≡ (if same_destination c d then some metric else metric_of (lookup c (x ∷ xs))))
            (sym z)
            (elim (Bool-cases (same_destination c x.to)) [
              | inr h ↦ rw h (found-lookup d c xs j metric later)
              | inl h ↦ elim (Bool-cases (same_destination c d)) [
                | inr h' ↦ rw (h, h') refl
                | inl h' ↦
                    let both = sym (same_destination-cong c d x.to h') ∙ h in
                    absurd (ground (arith, both, n))
              ]
            ])
    ]

set-lookup-none :
    (c : Destination) (xs : List Xroute) (i : ℕ) (x' : Xroute)
    → x'.to ≡ (get_or xs i blank).to
    → lookup c xs ≡ none
    → lookup c (set xs i x') ≡ none
unfolding lookup
set-lookup-none c [] i x' e n = refl
set-lookup-none c (x ∷ xs) zero x' e n = elim (Bool-cases (same_destination c x.to)) [
  | inl y ↦ absurd (ground (arith, y))
  | inr h ↦ rw (e, h) (ground (arith, h))
]
set-lookup-none c (x ∷ xs) (suc i) x' e n = elim (Bool-cases (same_destination c x.to)) [
  | inl y ↦ absurd (ground (arith, y))
  | inr h ↦ rw h (set-lookup-none c xs i x' e (ground (arith, h)))
]

set-AllDistinct :
    (xs : List Xroute) (i : ℕ) (x' : Xroute)
    → x'.to ≡ (get_or xs i blank).to
    → AllDistinct xs
    → AllDistinct (set xs i x')
set-AllDistinct [] i x' e h = tt
set-AllDistinct (x ∷ xs) zero x' e (new, h) = (ap (λ d. lookup d xs) e ∙ new, h)
set-AllDistinct (x ∷ xs) (suc i) x' e (new, h) =
    (set-lookup-none x.to xs i x' e new, set-AllDistinct xs i x' e h)

append-lookup :
    (c : Destination) (xs : List Xroute) (x : Xroute)
    → lookup x.to xs ≡ none
    → lookup c (xs ++ x ∷ []) ≡ (if same_destination c x.to then some x else lookup c xs)
unfolding lookup
append-lookup c [] x n = refl
append-lookup c (y ∷ ys) x n =
    let (apart, later) = lookup_none y (same_destination x.to y.to) (lookup x.to ys) n in
    elim (Bool-cases (same_destination c y.to)) [
      | inr h ↦ rw h (append-lookup c ys x later)
      | inl h ↦ elim (Bool-cases (same_destination c x.to)) [
        | inr h' ↦ rw (h, h') refl
        | inl h' ↦
            let both = sym (same_destination-cong c x.to y.to h') ∙ h in
            absurd (ground (arith, both, apart))
      ]
    ]

append-AllDistinct :
    (xs : List Xroute) (x : Xroute)
    → lookup x.to xs ≡ none
    → AllDistinct xs
    → AllDistinct (xs ++ x ∷ [])
unfolding lookup
append-AllDistinct [] x n h = (refl, tt)
append-AllDistinct (y ∷ ys) x n (new, h) =
    let (apart, later) = lookup_none y (same_destination x.to y.to) (lookup x.to ys) n in
    (
      append-lookup y.to ys x later ∙ rw (same_destination-flip y.to x.to ∙ apart) new,
      append-AllDistinct ys x later h,
    )

-- The smaller of an old metric, if there is one, and a new one.
abbrev pub best : Option ℕ → ℕ → Option ℕ
best none metric = some metric
best (some old) metric = some (min old metric)

-- What add_xroute does for the destinations that the array has.
abbrev pub IsAdded : Destination → ℕ → List Xroute → List Xroute → Type 0
IsAdded d metric xs ys =
    (c : Destination)
    → metric_of (lookup c ys) ≡ (
        if same_destination c d
        then best (metric_of (lookup d xs)) metric
        else metric_of (lookup c xs))

module _ (d : Destination) (metric : ℕ) (t : XrouteTable) (h : AllDistinct t.xroutes) where
  abbrev pub KeepsMap : XrouteTable × Added × List Notice → Type 0
  KeepsMap r =
      AllDistinct r.0.xroutes
      × (((r.1 ≡ no_memory) × (r.0.xroutes ≡ t.xroutes)) ⊎ IsAdded d metric t.xroutes r.0.xroutes)

  IsAdded-append :
      (x : Xroute)
      → x.to ≡ d
      → x.metric ≡ metric
      → lookup d t.xroutes ≡ none
      → IsAdded d metric t.xroutes (t.xroutes ++ x ∷ [])
  IsAdded-append x same same_metric absent c =
      ap metric_of (append-lookup c t.xroutes x (ap (λ e. lookup e t.xroutes) same ∙ absent))
      ∙ ap (λ e. metric_of (if same_destination c e then some x else lookup c t.xroutes)) same
      ∙ (elim (Bool-cases (same_destination c d)) [
        | inl y ↦ rw (y, absent) (ap some same_metric)
        | inr n ↦ rw n refl
      ])

  IsAdded-kept :
      (x : Xroute)
      → lookup d t.xroutes ≡ some x
      → x.metric ≤ metric
      → IsAdded d metric t.xroutes t.xroutes
  IsAdded-kept x there le c = elim (Bool-cases (same_destination c d)) [
    | inl y ↦ rw (y, lookup-cong c d t.xroutes y, there) (ap some (omega arith))
    | inr n ↦ rw n refl
  ]

  IsAdded-set :
      (i : ℕ)
      → find_xroute d t.xroutes ≡ some i
      → metric < (get_or t.xroutes i blank).metric
      → IsAdded d metric t.xroutes
          (set t.xroutes i (record (get_or t.xroutes i blank) { metric = metric }))
  IsAdded-set i e lt c =
      found-lookup d c t.xroutes i metric e
      ∙ ap (λ o. if same_destination c d then o else metric_of (lookup c t.xroutes))
          (ap some (omega arith)
            ∙ ap (λ o. best (metric_of o) metric) (sym (find_xroute-some d t.xroutes i e)))

-- add_xroute, on an array in which no destination stands twice, keeps it so; unless there is no
-- memory, the destination has the smaller of its old metric and the new one afterwards, and the other
-- destinations have what they had. Without memory nothing changes.
pub add_xroute-IsAdded :
    (realloc : Bool) (d : Destination) (metric ifindex proto : ℕ) (t : XrouteTable)
    → (h : AllDistinct t.xroutes)
    → KeepsMap d metric t h (add_xroute realloc d metric ifindex proto t)
unfolding add_xroute
add_xroute-IsAdded realloc d metric ifindex proto t h =
    elim (Option-cases (find_xroute d t.xroutes)) [
      | inl e ↦
          let absent = find_xroute-none d t.xroutes e in
          elim (Bool-cases (leb (make_room realloc t).maxxroutes (length t.xroutes))) [
            | inl full ↦ rw (add_xroute, e, full) (h, inl (refl, refl))
            | inr room ↦
                rw (add_xroute, e, room)
                  (
                    append-AllDistinct t.xroutes _ absent h,
                    inr (IsAdded-append d metric t h _ refl refl absent),
                  )
          ]
      | inr (i, e) ↦ elim (Bool-cases (leb (get_or t.xroutes i blank).metric metric)) [
        | inl y ↦
            rw (add_xroute, e, y)
              (
                h,
                inr (
                    IsAdded-kept d metric t h (get_or t.xroutes i blank)
                      (find_xroute-some d t.xroutes i e) (ground arith)),
              )
        | inr n ↦
            rw (add_xroute, e, n)
              (
                set-AllDistinct t.xroutes i _ refl h,
                inr (IsAdded-set d metric t h i e (ground arith)),
              )
      ]
    ]
