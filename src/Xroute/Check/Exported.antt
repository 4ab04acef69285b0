-- ===== src/Xroute/Check/Exported.antt =====
-- xroute.c: the first loop of check_xroutes keeps what is still exported, and nothing else.
use rabeld.Prelude.{
  ℕ, zero, suc, ◌+◌, ◌-◌, ◌≤◌, ◌<◌, ◌≡◌, refl, arith, Bool, true, false, leb, ◌==◌, if◌then◌else◌,
  Bool-cases, inl, inr, List, [], ◌∷◌, get_or, set, take, length, length-take, length-set, Option,
  some, none, ap, subst, sym, ◌∙◌,
}
use rabeld.Resend.{Destination}
use rabeld.Config.{Filters}
use rabeld.Xroute.{
  Xroute, XrouteTable, same_destination, fill_hole, flush_xroute, room_after, blank,
}
use rabeld.Xroute.Map.{lookup, AllDistinct, lookup-some, same_destination-cong}
use rabeld.Xroute.Flush.{lookup-fill_hole, fill_hole-AllDistinct}
use rabeld.Xroute.Check.{KernelRoute, is_exported, flush_loop}

abbrev pub keep_if : (Xroute → Bool) → Option Xroute → Option Xroute
keep_if p none = none
keep_if p (some x) = if p x then some x else none

-- The elements up to an index pass a test.
abbrev pub PassBelow : (Xroute → Bool) → ℕ → List Xroute → Type 0
PassBelow p i xs = (j : ℕ) → j < i → p (get_or xs j blank) ≡ true

-- All of them, from the front.
abbrev pub AllPass : (Xroute → Bool) → List Xroute → Type 0
AllPass p [] = Unit
AllPass p (x ∷ xs) = (p x ≡ true) × AllPass p xs

all_pass : (p : Xroute → Bool) (xs : List Xroute) → PassBelow p (length xs) xs → AllPass p xs
all_pass p [] h = tt
all_pass p (x ∷ xs) h = (h 0 (omega arith), all_pass p xs (λ j lt. h (suc j) (omega arith)))

keep_if-pass :
    (p : Xroute → Bool) (d : Destination) (xs : List Xroute)
    → AllPass p xs
    → keep_if p (lookup d xs) ≡ lookup d xs
unfolding lookup
keep_if-pass p d [] h = refl
keep_if-pass p d (x ∷ xs) (e, h) = elim (Bool-cases (same_destination d x.to)) [
  | inl y ↦ rw (y, keep_if) (rw e refl)
  | inr n ↦ rw n (keep_if-pass p d xs h)
]

-- An element of an array without a destination that stands twice is what the array has for it.
lookup-element :
    (d : Destination) (xs : List Xroute) (i : ℕ)
    → AllDistinct xs
    → i < length xs
    → same_destination d (get_or xs i blank).to ≡ true
    → lookup d xs ≡ some (get_or xs i blank)
unfolding lookup
lookup-element d [] i h lt e = absurd (omega arith)
lookup-element d (x ∷ xs) zero h lt e = rw e refl
lookup-element d (x ∷ xs) (suc i) (new, h) lt e = elim (Bool-cases (same_destination d x.to)) [
  | inr n ↦ rw n (lookup-element d xs i h (omega arith) e)
  | inl y ↦ absurd (
      lookup-some x.to xs i (omega arith)
        (sym (same_destination-cong d x.to (get_or xs i blank).to y) ∙ e) new)
]

get_or-set_below :
    (xs : List Xroute) (i j : ℕ) (x : Xroute)
    → j < i
    → get_or (set xs i x) j blank ≡ get_or xs j blank
get_or-set_below [] i j x h = refl
get_or-set_below (y ∷ ys) zero j x h = absurd (omega arith)
get_or-set_below (y ∷ ys) (suc i) zero x h = refl
get_or-set_below (y ∷ ys) (suc i) (suc j) x h = get_or-set_below ys i j x (omega arith)

get_or-take :
    (n : ℕ) (xs : List Xroute) (j : ℕ) → j < n → get_or (take n xs) j blank ≡ get_or xs j blank
get_or-take zero xs j h = absurd (omega arith)
get_or-take (suc n) [] j h = refl
get_or-take (suc n) (x ∷ xs) zero h = refl
get_or-take (suc n) (x ∷ xs) (suc j) h = get_or-take n xs j (omega arith)

get_or-fill_hole :
    (i : ℕ) (xs : List Xroute) (j : ℕ)
    → i < length xs
    → j < i
    → get_or (fill_hole i xs) j blank ≡ get_or xs j blank
unfolding fill_hole
get_or-fill_hole i xs j lt below = elim (Bool-cases (i == length xs - 1)) [
  | inl e ↦ rw e (get_or-take (length xs - 1) xs j (omega arith))
  | inr n ↦ rw n (
      get_or-take (length xs - 1) (set xs i (get_or xs (length xs - 1) blank)) j (omega arith)
      ∙ get_or-set_below xs i j (get_or xs (length xs - 1) blank) below)
]

length-fill_hole : (i : ℕ) (xs : List Xroute) → length (fill_hole i xs) ≡ length xs - 1
unfolding fill_hole
length-fill_hole i xs = elim (Bool-cases (i == length xs - 1)) [
  | inl e ↦ rw e (length-take (length xs - 1) xs ∙ omega arith)
  | inr n ↦
      let ys : List Xroute = set xs i (get_or xs (length xs - 1) blank) in
      rw n (
        length-take (length xs - 1) ys
        ∙ omega (arith, length-set xs i (get_or xs (length xs - 1) blank)))
]

room_after-fits : (realloc : Bool) (n room : ℕ) → suc n ≤ room → n ≤ room_after realloc n room
room_after-fits realloc n room h = ground arith

keep_if-gone :
    (p : Xroute → Bool) (d : Destination) (xs : List Xroute) (i : ℕ)
    → AllDistinct xs
    → i < length xs
    → p (get_or xs i blank) ≡ false
    → keep_if p (if same_destination d (get_or xs i blank).to then none else lookup d xs)
      ≡ keep_if p (lookup d xs)
keep_if-gone p d xs i h lt out = elim (Bool-cases (same_destination d (get_or xs i blank).to)) [
  | inr n ↦ rw n refl
  | inl y ↦ rw (y, lookup-element d xs i h lt y) (rw out refl)
]

module _ (realloc : Bool) (c : Filters) (routes : List KernelRoute) where
  -- What the loop leaves of an array.
  abbrev pub Flushed : XrouteTable → Option (XrouteTable × List Destination) → Type 0
  Flushed t o =
      (t' : XrouteTable) × (flushed : List Destination) × (o ≡ some (t', flushed))
      × AllDistinct t'.xroutes
      × (length t'.xroutes ≤ t'.maxxroutes)
      × ((d : Destination)
          → lookup d t'.xroutes ≡ keep_if (is_exported c routes) (lookup d t.xroutes))

  pub flush_loop-Flushed :
      (rounds i : ℕ) (t : XrouteTable)
      → length t.xroutes ≤ i + rounds
      → AllDistinct t.xroutes
      → length t.xroutes ≤ t.maxxroutes
      → PassBelow (is_exported c routes) i t.xroutes
      → Flushed t (flush_loop rounds realloc c routes i t)
  unfolding flush_loop flush_xroute
  flush_loop-Flushed zero i t short h fits pass = (
    t,
    [],
    refl,
    h,
    fits,
    λ d. sym (
        keep_if-pass (is_exported c routes) d t.xroutes
          (all_pass (is_exported c routes) t.xroutes (λ j lt. pass j (omega arith)))),
  )
  flush_loop-Flushed (suc rounds) i t short h fits pass =
      let p : Xroute → Bool = is_exported c routes in
      let x : Xroute = get_or t.xroutes i blank in
      elim (Bool-cases (leb (length t.xroutes) i)) [
        | inl e ↦ (
          t,
          [],
          rw e refl,
          h,
          fits,
          λ d. sym (
              keep_if-pass p d t.xroutes
                (all_pass p t.xroutes (λ j lt. pass j (ground (arith, e))))),
        )
        | inr e ↦ elim (Bool-cases (is_exported c routes x)) [
          | inl y ↦
              rw (e, y)
                (flush_loop-Flushed rounds (i + 1) t (omega arith) h fits (λ j lt.
                  elim (Bool-cases (j == i)) [
                    | inl same ↦
                        subst (λ k. p (get_or t.xroutes k blank) ≡ true) (ground (arith, same)) y
                    | inr other ↦ pass j (ground (arith, other))
                  ]))
          | inr n ↦
              let lt : i < length t.xroutes = ground (arith, e) in
              let t₁ : XrouteTable = record {
                xroutes = fill_hole i t.xroutes;
                maxxroutes = room_after realloc (length (fill_hole i t.xroutes)) t.maxxroutes;
              } in
              let shorter : length (fill_hole i t.xroutes) ≡ length t.xroutes - 1 =
                length-fill_hole i t.xroutes in
              let (t', flushed, eq, distinct, fits', look) =
                flush_loop-Flushed rounds i t₁ (omega arith)
                  (fill_hole-AllDistinct t.xroutes i h lt)
                  (room_after-fits realloc (length (fill_hole i t.xroutes)) t.maxxroutes
                    (omega arith))
                  (λ j below. ap p (get_or-fill_hole i t.xroutes j lt below) ∙ pass j below) in
              (
                t',
                x.to ∷ flushed,
                rw (e, n, eq) refl,
                distinct,
                fits',
                λ d.
                    look d
                    ∙ ap (keep_if p) (lookup-fill_hole d t.xroutes i h lt)
                    ∙ keep_if-gone p d t.xroutes i h lt n,
              )
        ]
      ]
