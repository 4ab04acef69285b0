-- ===== src/Config/FilterLine/Ends.antt =====
-- configuration.c: the loop of parse_filter comes to an end.
use rabeld.Prelude.{
  ℕ, zero, suc, ◌≤◌, ◌<◌, ◌≡◌, arith, false, true, List, length, Option, some, none, Bool-cases,
  Option-cases, inl, inr, subst, refl,
}
use rabeld.Util.Text.{Libc}
use rabeld.Config.{Filter}
use rabeld.Config.Lexer.{skip_whitespace, skip_to_eol, at_eol, getword}
use rabeld.Config.Matching.{blank_filter}
use rabeld.Config.Values.{Keywords, dispatch, parse_words}
use rabeld.Config.Values.Rounds.{
  left, AllShorten, left-getword, dispatch-Shortens, length-skip_whitespace,
}
use rabeld.Config.FilterLine.{filter_keywords, finish_filter, parse_filter_in, parse_filter}
use rabeld.Config.FilterLine.Laws.{filter_keywords-AllShorten}

-- A run of the loop over a line that ends, as the finite sequence of its rounds: from the text and
-- what has been read so far to the result, which is `none` only for an error in the text.
pub data Ends {S : Type 0} (table : Keywords S) : List ℕ → S → Option (S × List ℕ) → Type 0 where
  eol :
      (cs : List ℕ) (s : S)
      → at_eol (skip_whitespace cs) ≡ true
      → Ends table cs s (some (s, skip_to_eol (skip_whitespace cs)))
  no_word :
      (cs : List ℕ) (s : S)
      → at_eol (skip_whitespace cs) ≡ false
      → getword (skip_whitespace cs) ≡ none
      → Ends table cs s none
  refused :
      (cs rest token : List ℕ) (s : S)
      → at_eol (skip_whitespace cs) ≡ false
      → getword (skip_whitespace cs) ≡ some (token, rest)
      → dispatch table token rest s ≡ none
      → Ends table cs s none
  keyword :
      (cs rest rest' token : List ℕ) (s s' : S) (r : Option (S × List ℕ))
      → at_eol (skip_whitespace cs) ≡ false
      → getword (skip_whitespace cs) ≡ some (token, rest)
      → dispatch table token rest s ≡ some (s', rest')
      → Ends table rest' s' r
      → Ends table cs s r

parse_words-Ends :
    {S : Type 0} (rounds : ℕ) (table : Keywords S) (cs : List ℕ) (s : S)
    → AllShorten table
    → length cs < rounds
    → Ends table cs s (parse_words rounds table cs s)
unfolding parse_words
parse_words-Ends zero table cs s h lt = absurd (omega arith)
parse_words-Ends (suc n) table cs s h lt =
    let cs' : List ℕ = skip_whitespace cs in
    elim (Bool-cases (at_eol cs')) [
      | inl e ↦ rw e (eol cs s e)
      | inr e ↦ elim (Option-cases (getword cs')) [
        | inl w ↦ rw (e, w) (no_word cs s e w)
        | inr ((token, rest), w) ↦ elim (Option-cases (dispatch table token rest s)) [
          | inl d ↦ rw (e, w, d) (refused cs rest token s e w d)
          | inr ((s', rest'), d) ↦
              let shorter : suc (length rest) ≤ length cs' =
                subst (λ o. left o ≤ length cs') w (left-getword cs') in
              let shorter' : suc (length rest') ≤ suc (length rest) =
                subst (λ o. left o ≤ suc (length rest)) d
                  (dispatch-Shortens table token rest s h) in
              rw (e, w, d)
                (keyword cs rest rest' token s s' _ e w d
                  (parse_words-Ends n table rest' s' h (omega (arith, length-skip_whitespace cs))))
        ]
      ]
    ]

-- The end of parse_filter.
abbrev pub finished : Option (Filter × List ℕ) → Option (Filter × List ℕ)
finished none = none
finished (some (f, rest)) = some (finish_filter f, rest)

-- parse_filter comes to an end on every text: there is a finite sequence of rounds, each of which
-- reads a keyword with its values, up to the end of the line or to an error in the text, and
-- parse_filter returns what this sequence has read, as a filter. It never fails for want of rounds.
pub parse_filter-Ends :
    (c : Libc) (cs : List ℕ)
    → (o : Option (Filter × List ℕ)) × Ends (filter_keywords c) cs blank_filter o
      × (parse_filter c cs ≡ finished o)
unfolding parse_filter parse_filter_in
parse_filter-Ends c cs = (
  parse_words (suc (length cs)) (filter_keywords c) cs blank_filter,
  parse_words-Ends (suc (length cs)) (filter_keywords c) cs blank_filter
      (filter_keywords-AllShorten c) (omega arith),
  settled (parse_words (suc (length cs)) (filter_keywords c) cs blank_filter),
)
  where
    settled :
        (o : Option (Filter × List ℕ))
        → elim o [ none ↦ none | some (f, rest) ↦ some (finish_filter f, rest) ] ≡ finished o
    settled none = refl
    settled (some (f, rest)) = refl
