-- ===== src/Xroute/Flush.antt =====
-- xroute.c: flush_xroute, which moves the last element to the place of the one that goes.
use rabeld.Prelude.{
  ℕ, zero, suc, ◌-◌, ◌<◌, ◌≡◌, refl, arith, Bool, true, false, leb, ◌==◌, if◌then◌else◌, Bool-cases,
  inl, inr, List, [], ◌∷◌, get_or, take, length, Option, some, none, ap, subst, sym, ◌∙◌,
}
use rabeld.Resend.{Destination}
use rabeld.Xroute.{
  Xroute, XrouteTable, same_destination, fill_hole, flush_xroute, room_after, blank, notify_flush,
}
use rabeld.Xroute.Map.{
  same_destination-cong, same_destination_refl, lookup, AllDistinct, lookup-cong, lookup-some,
}

-- The last element and the others.
abbrev last : Xroute → List Xroute → Xroute
last y [] = y
last y (z ∷ zs) = last z zs

abbrev init : Xroute → List Xroute → List Xroute
init y [] = []
init y (z ∷ zs) = y ∷ init z zs

module _ (x : Xroute) (o r : Option Xroute) where
  answer_here : (b : Bool) → (if b then some x else o) ≡ r → b ≡ true → some x ≡ r
  answer_here true e y = e
  answer_here false e y = absurd (ground (arith, y))

  answer_later : (b : Bool) → (if b then some x else o) ≡ r → b ≡ false → o ≡ r
  answer_later false e n = e
  answer_later true e n = absurd (ground (arith, n))

-- Moving the last element to the front changes no answer.
lookup-last :
    (d : Destination) (y : Xroute) (ys : List Xroute)
    → AllDistinct (y ∷ ys)
    → lookup d (last y ys ∷ init y ys) ≡ lookup d (y ∷ ys)
unfolding lookup
lookup-last d y [] h = refl
lookup-last d y (z ∷ zs) (new, h) =
    let ih = lookup-last d z zs h in
    elim (Bool-cases (same_destination d (last z zs).to)) [
      | inr n ↦
          let rest =
            answer_later (last z zs) (lookup d (init z zs)) (lookup d (z ∷ zs))
              (same_destination d (last z zs).to) ih n in
          rw n (ap (λ o. if same_destination d y.to then some y else o) rest)
      | inl e ↦ elim (Bool-cases (same_destination d y.to)) [
        | inr n ↦
            rw (e, n)
              (answer_here (last z zs) (lookup d (init z zs)) (lookup d (z ∷ zs))
                (same_destination d (last z zs).to) ih e)
        | inl e' ↦
            let both : same_destination y.to (last z zs).to ≡ true =
              sym (same_destination-cong d y.to (last z zs).to e') ∙ e in
            let twice =
              answer_here (last z zs) (lookup y.to (init z zs)) (lookup y.to (z ∷ zs))
                (same_destination y.to (last z zs).to) (lookup-last y.to z zs h) both
              ∙ new in
            absurd (ground (arith, twice))
      ]
    ]

get_or-last : (y : Xroute) (ys : List Xroute) → get_or (y ∷ ys) (length ys) blank ≡ last y ys
get_or-last y [] = refl
get_or-last y (z ∷ zs) = get_or-last z zs

take-init : (y : Xroute) (ys : List Xroute) → take (length ys) (y ∷ ys) ≡ init y ys
take-init y [] = refl
take-init y (z ∷ zs) = ap (λ t. y ∷ t) (take-init z zs)

minus_one : (n : ℕ) → suc n - 1 ≡ n
minus_one n = omega arith

different : (n : ℕ) → 0 == suc n ≡ false
different n = ground arith

suc-eq : (i n : ℕ) → suc i == suc n ≡ (i == n)
suc-eq i n = ground arith

-- fill_hole, from the front.
fill_hole-here :
    (x y : Xroute) (ys : List Xroute) → fill_hole 0 (x ∷ y ∷ ys) ≡ last y ys ∷ init y ys
unfolding fill_hole
fill_hole-here x y ys =
    rw (minus_one (suc (length ys)), different (length ys), get_or-last y ys, take-init y ys) refl

fill_hole-later :
    (x : Xroute) (xs : List Xroute) (i : ℕ)
    → i < length xs
    → fill_hole (suc i) (x ∷ xs) ≡ x ∷ fill_hole i xs
unfolding fill_hole
fill_hole-later x [] i lt = absurd (omega arith)
fill_hole-later x (z ∷ zs) i lt =
    rw (minus_one (suc (length zs)), minus_one (length zs), suc-eq i (length zs))
      (elim (Bool-cases (i == length zs)) [ inl e ↦ rw e refl | inr n ↦ rw n refl ])

pub lookup-fill_hole :
    (d : Destination) (xs : List Xroute) (i : ℕ)
    → AllDistinct xs
    → i < length xs
    → lookup d (fill_hole i xs)
      ≡ (if same_destination d (get_or xs i blank).to then none else lookup d xs)
unfolding lookup fill_hole
lookup-fill_hole d [] i h lt = absurd (omega arith)
lookup-fill_hole d (x ∷ []) zero h lt = elim (Bool-cases (same_destination d x.to)) [
  | inl e ↦ rw e refl
  | inr n ↦ rw n refl
]
lookup-fill_hole d (x ∷ y ∷ ys) zero (new, h) lt =
    ap (lookup d) (fill_hole-here x y ys)
    ∙ lookup-last d y ys h
    ∙ elim (Bool-cases (same_destination d x.to)) [
      | inl e ↦ rw e (lookup-cong d x.to (y ∷ ys) e ∙ new)
      | inr n ↦ rw n refl
    ]
lookup-fill_hole d (x ∷ xs) (suc i) (new, h) lt =
    ap (lookup d) (fill_hole-later x xs i (omega arith))
    ∙ ap (λ o. if same_destination d x.to then some x else o)
        (lookup-fill_hole d xs i h (omega arith))
    ∙ elim (Bool-cases (same_destination d x.to)) [
      | inr n ↦ rw n refl
      | inl e ↦ elim (Bool-cases (same_destination d (get_or xs i blank).to)) [
        | inr n ↦ rw (e, n) refl
        | inl e' ↦ absurd (
            lookup-some x.to xs i (omega arith)
              (sym (same_destination-cong d x.to (get_or xs i blank).to e) ∙ e') new)
      ]
    ]

-- A destination that is not found is not that of the last element, nor among the others.
absent_split :
    (d : Destination) (z : Xroute) (zs : List Xroute)
    → AllDistinct (z ∷ zs)
    → lookup d (z ∷ zs) ≡ none
    → (same_destination d (last z zs).to ≡ false) × (lookup d (init z zs) ≡ none)
unfolding lookup
absent_split d z zs h new =
    let moved = lookup-last d z zs h ∙ new in
    elim (Bool-cases (same_destination d (last z zs).to)) [
      | inl e ↦
          let found =
            answer_here (last z zs) (lookup d (init z zs)) none (same_destination d (last z zs).to)
              moved e in
          absurd (ground (arith, found))
      | inr n ↦ (
        n,
        answer_later (last z zs) (lookup d (init z zs)) none (same_destination d (last z zs).to)
            moved n,
      )
    ]

init-AllDistinct :
    (y : Xroute) (ys : List Xroute) → AllDistinct (y ∷ ys) → AllDistinct (last y ys ∷ init y ys)
unfolding lookup
init-AllDistinct y [] h = (refl, tt)
init-AllDistinct y (z ∷ zs) (new, h) =
    let (there, rest) = init-AllDistinct z zs h in
    let (apart, missing) = absent_split y.to z zs h new in
    let apart' : same_destination (last z zs).to y.to ≡ false =
      elim (Bool-cases (same_destination (last z zs).to y.to)) [
        | inr n ↦ n
        | inl e ↦
            let same =
              sym (same_destination-cong (last z zs).to y.to (last z zs).to e)
              ∙ same_destination_refl (last z zs).to in
            absurd (ground (arith, same, apart))
      ] in
    (rw apart' there, (missing, rest))

pub fill_hole-AllDistinct :
    (xs : List Xroute) (i : ℕ) → AllDistinct xs → i < length xs → AllDistinct (fill_hole i xs)
unfolding fill_hole
fill_hole-AllDistinct [] i h lt = absurd (omega arith)
fill_hole-AllDistinct (x ∷ []) zero h lt = tt
fill_hole-AllDistinct (x ∷ y ∷ ys) zero (new, h) lt =
    subst AllDistinct (sym (fill_hole-here x y ys)) (init-AllDistinct y ys h)
fill_hole-AllDistinct (x ∷ xs) (suc i) (new, h) lt =
    subst AllDistinct (sym (fill_hole-later x xs i (omega arith))) (
      lookup-fill_hole x.to xs i h (omega arith)
          ∙ none_either (same_destination x.to (get_or xs i blank).to) (lookup x.to xs) new,
      fill_hole-AllDistinct xs i h (omega arith),
    )
  where
    none_either : (b : Bool) (o : Option Xroute) → o ≡ none → (if b then none else o) ≡ none
    none_either true o e = refl
    none_either false o e = e

-- flush_xroute, on an array in which no destination stands twice: it takes one element out, and what
-- the array says of the other destinations stays.
pub flush_xroute-lookup :
    (realloc : Bool) (i : ℕ) (t : XrouteTable)
    → AllDistinct t.xroutes
    → i < length t.xroutes
    → (t' : XrouteTable) × (flush_xroute realloc i t ≡ some (t', notify_flush i ∷ []))
      × AllDistinct t'.xroutes
      × ((d : Destination)
          → lookup d t'.xroutes ≡ (
              if same_destination d (get_or t.xroutes i blank).to
              then none
              else lookup d t.xroutes))
unfolding flush_xroute
flush_xroute-lookup realloc i t h lt = (
  record {
    xroutes = fill_hole i t.xroutes;
    maxxroutes = room_after realloc (length (fill_hole i t.xroutes)) t.maxxroutes;
  },
  rw inside refl,
  fill_hole-AllDistinct t.xroutes i h lt,
  λ d. lookup-fill_hole d t.xroutes i h lt,
)
  where
    inside : leb (length t.xroutes) i ≡ false
    inside = ground arith
