-- ===== src/Config/Values/Keeps.antt =====
-- configuration.c: what every keyword of a line keeps holds after the line.
use rabeld.Prelude.{
  ℕ, zero, suc, List, [], ◌∷◌, Option, some, none, Bool-cases, Option-cases, inl, inr, subst,
}
use rabeld.Config.Lexer.{skip_whitespace, at_eol, getword, is_word}
use rabeld.Config.Values.{Reader, on_value, Keywords, dispatch, parse_words}

module _ {S : Type 0} (P : S → Type 0) where
  -- The property, of what an action or a change returns, if it does not fail.
  abbrev pub Holds : Option (S × List ℕ) → Type 0
  Holds none = Unit
  Holds (some (s, rest)) = P s

  abbrev pub HoldsOf : Option S → Type 0
  HoldsOf none = Unit
  HoldsOf (some s) = P s

  abbrev pub AllKeep : Keywords S → Type 0
  AllKeep [] = Unit
  AllKeep ((keyword, action) ∷ more) =
      ((cs : List ℕ) (s : S) → P s → Holds (action cs s)) × AllKeep more

  pub on_value-Keeps :
      {A : Type 0} (read : Reader A) (change : A → S → Option S)
      → ((a : A) (s : S) → P s → HoldsOf (change a s))
      → (cs : List ℕ) (s : S) → P s
      → Holds (on_value read change cs s)
  on_value-Keeps read change keep cs s p = elim (Option-cases (read cs)) [
    | inl e ↦ rw (e, Holds, on_value) tt
    | inr ((a, rest), e) ↦ elim (Option-cases (change a s)) [
      | inl n ↦ rw (e, Holds, on_value) (rw (n, Holds, on_value) tt)
      | inr (s', y) ↦
          rw (e, Holds, on_value) (rw (y, Holds, on_value) (subst HoldsOf y (keep a s p)))
    ]
  ]

  dispatch-Keeps :
      (table : Keywords S) (token cs : List ℕ) (s : S)
      → AllKeep table
      → P s
      → Holds (dispatch table token cs s)
  unfolding dispatch
  dispatch-Keeps [] token cs s h p = tt
  dispatch-Keeps ((keyword, action) ∷ more) token cs s (h, hs) p =
      elim (Bool-cases (is_word token keyword)) [
        | inl e ↦ rw e (h cs s p)
        | inr e ↦ rw e (dispatch-Keeps more token cs s hs p)
      ]

  pub parse_words-Keeps :
      (rounds : ℕ) (table : Keywords S) (cs : List ℕ) (s : S)
      → AllKeep table
      → P s
      → Holds (parse_words rounds table cs s)
  unfolding parse_words
  parse_words-Keeps zero table cs s h p = tt
  parse_words-Keeps (suc rounds) table cs s h p =
      let cs' : List ℕ = skip_whitespace cs in
      elim (Bool-cases (at_eol cs')) [
        | inl e ↦ rw e p
        | inr e ↦ elim (Option-cases (getword cs')) [
          | inl w ↦ rw (e, w, Holds) tt
          | inr ((token, rest), w) ↦ elim (Option-cases (dispatch table token rest s)) [
            | inl d ↦ rw (e, w, d, Holds) tt
            | inr ((s', rest'), d) ↦
                rw (e, w, d, Holds)
                  (parse_words-Keeps rounds table rest' s' h
                    (subst Holds d (dispatch-Keeps table token rest s h p)))
          ]
        ]
      ]
