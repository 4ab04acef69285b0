-- ===== src/Config/Values/Rounds.antt =====
-- configuration.c: the readers never lengthen the text, so that the loop over a line ends.
use rabeld.Prelude.{
  ℕ, zero, suc, ◌≤◌, ◌≡◌, refl, arith, ◌||◌, List, [], ◌∷◌, length, Option, some, none, Bool-cases,
  Option-cases, inl, inr, subst,
}
use rabeld.Config.Lexer.{
  skip_whitespace, getword, getstring, take_word, take_quoted, at_eol, starts_quote, prepend,
  is_word, behind, ends_word,
}
use rabeld.Config.Values.{Reader, of_word, on_value, Keywords, dispatch}

-- The length of the text that is given back and one more, or 0 for an error.
abbrev pub left : {A : Type 0} → Option (A × List ℕ) → ℕ
left none = 0
left (some (a, rest)) = suc (length rest)

-- A reader never gives back a longer text; an action neither.
abbrev pub Shortens : {A : Type 0} → Reader A → Type 0
Shortens read = (cs : List ℕ) → left (read cs) ≤ suc (length cs)

abbrev pub AllShorten : {S : Type 0} → Keywords S → Type 0
AllShorten [] = Unit
AllShorten {S} ((keyword, action) ∷ more) =
    ((cs : List ℕ) (s : S) → left (action cs s) ≤ suc (length cs)) × AllShorten more

pub length-skip_whitespace : (cs : List ℕ) → length (skip_whitespace cs) ≤ length cs
unfolding skip_whitespace
length-skip_whitespace [] = omega arith
length-skip_whitespace (c ∷ cs) = ground (arith, length-skip_whitespace cs)

left-prepend : (c : ℕ) (o : Option (List ℕ × List ℕ)) → left (prepend c o) ≡ left o
left-prepend c none = refl
left-prepend c (some (w, rest)) = refl

left-take_word : (room : ℕ) (cs : List ℕ) → left (take_word room cs) ≤ length cs
unfolding take_word
left-take_word zero cs = omega arith
left-take_word (suc room) [] = omega arith
left-take_word (suc room) (c ∷ cs) = elim (Bool-cases (ends_word cs)) [
  | inl e ↦ rw e (omega arith)
  | inr e ↦ rw (e, left-prepend c (take_word room cs)) (omega (arith, left-take_word room cs))
]

pub left-getword : (cs : List ℕ) → left (getword cs) ≤ length cs
unfolding getword
left-getword cs =
    let cs' : List ℕ = skip_whitespace cs in
    elim (Bool-cases (at_eol cs' || starts_quote cs')) [
      | inl e ↦ rw e (omega arith)
      | inr e ↦ rw e (omega (arith, left-take_word 255 cs', length-skip_whitespace cs))
    ]

left-take_quoted : (room : ℕ) (cs : List ℕ) → left (take_quoted room cs) ≤ length cs
unfolding take_quoted
left-take_quoted zero cs = omega arith
left-take_quoted (suc room) [] = omega arith
left-take_quoted (suc room) (c ∷ []) = ground arith
left-take_quoted (suc room) (c ∷ d ∷ cs) = ground (
  arith,
  left-prepend c (take_quoted room (d ∷ cs)),
  left-prepend d (take_quoted room cs),
  left-take_quoted room (d ∷ cs),
  left-take_quoted room cs,
)

length-behind : (cs : List ℕ) → length (behind cs) ≤ length cs
length-behind [] = omega arith
length-behind (c ∷ cs) = omega arith

pub left-getstring : (cs : List ℕ) → left (getstring cs) ≤ length cs
unfolding getstring
left-getstring cs =
    let cs' : List ℕ = skip_whitespace cs in
    elim (Bool-cases (at_eol cs')) [
      | inl e ↦ rw e (omega arith)
      | inr e ↦ elim (Bool-cases (starts_quote cs')) [
        | inr n ↦ rw (e, n) (omega (arith, left-getword cs', length-skip_whitespace cs))
        | inl y ↦
            rw (e, y)
              (omega (
                arith,
                left-take_quoted 255 (behind cs'),
                length-behind cs',
                length-skip_whitespace cs,
              ))
      ]
    ]

pub of_word-Shortens : {A : Type 0} (f : List ℕ → Option A) → Shortens (of_word f)
of_word-Shortens f cs = elim (Option-cases (getword cs)) [
  | inl e ↦ rw (e, left, of_word) (omega arith)
  | inr ((t, rest), e) ↦
      let shorter : suc (length rest) ≤ length cs =
        subst (λ o. left o ≤ length cs) e (left-getword cs) in
      rw (e, left, of_word)
        (elim (Option-cases (f t)) [ inl n ↦ rw n (omega arith) | inr (a, y) ↦ rw y (omega arith) ])
]

pub on_value-Shortens :
    {A S : Type 0} (read : Reader A) (change : A → S → Option S)
    → Shortens read
    → (cs : List ℕ) (s : S) → left (on_value read change cs s) ≤ suc (length cs)
on_value-Shortens read change h cs s = elim (Option-cases (read cs)) [
  | inl e ↦ rw (e, left, on_value) (omega arith)
  | inr ((a, rest), e) ↦
      let shorter : suc (length rest) ≤ suc (length cs) =
        subst (λ o. left o ≤ suc (length cs)) e (h cs) in
      rw (e, left, on_value)
        (elim (Option-cases (change a s)) [
          | inl n ↦ rw n (omega arith)
          | inr (s', y) ↦ rw y (omega arith)
        ])
]

pub dispatch-Shortens :
    {S : Type 0} (table : Keywords S) (token cs : List ℕ) (s : S)
    → AllShorten table
    → left (dispatch table token cs s) ≤ suc (length cs)
unfolding dispatch
dispatch-Shortens [] token cs s h = omega arith
dispatch-Shortens ((keyword, action) ∷ more) token cs s (h, hs) =
    elim (Bool-cases (is_word token keyword)) [
      | inl e ↦ rw e (h cs s)
      | inr e ↦ rw e (dispatch-Shortens more token cs s hs)
    ]
