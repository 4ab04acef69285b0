-- ===== src/Config/Lexer.antt =====
-- configuration.c: the lexer. A reader returns what it has read and the rest of the text, and `none`
-- where the source returns -2. (strdup is taken to find memory, and the text has no NUL byte.)
use Prim.Native.Char.{code}
use Prim.Native.String.{String}
use rabeld.Prelude.{
  ℕ, zero, suc, Bool, true, false, ◌==◌, ◌&&◌, ◌||◌, if◌then◌else◌, List, [], ◌∷◌, Option, some,
  none,
}

-- The bytes of a keyword.
abbrev pub codes : String → List ℕ
codes String.[] = []
codes (String.◌∷◌ c s) = code c ∷ codes s

-- strcmp of a word and a keyword
unfoldable pub is_word : List ℕ → List ℕ → Bool
is_word [] [] = true
is_word [] (d ∷ v) = false
is_word (c ∷ w) [] = false
is_word (c ∷ w) (d ∷ v) = c == d && is_word w v

abbrev pub is_blank : ℕ → Bool
is_blank c = c == b' ' || (c == 9 || c == 13)

unfoldable pub skip_whitespace : List ℕ → List ℕ
skip_whitespace [] = []
skip_whitespace (c ∷ cs) = if is_blank c then skip_whitespace cs else c ∷ cs

unfoldable pub skip_to_eol : List ℕ → List ℕ
skip_to_eol [] = []
skip_to_eol (c ∷ cs) = if c == 10 then cs else skip_to_eol cs

-- Whether the line ends here, or is a comment from here on.
abbrev pub at_eol : List ℕ → Bool
at_eol [] = true
at_eol (c ∷ cs) = c == 10 || c == b'#'

unfoldable pub skip_eol : List ℕ → Option (List ℕ)
unfolding skip_whitespace
skip_eol cs =
    let cs' : List ℕ = skip_whitespace cs in if at_eol cs' then some (skip_to_eol cs') else none

-- Whether a word ends before the text.
abbrev pub ends_word : List ℕ → Bool
ends_word [] = true
ends_word (c ∷ cs) = is_blank c || (c == 10 || c == b'#')

abbrev pub prepend : ℕ → Option (List ℕ × List ℕ) → Option (List ℕ × List ℕ)
prepend c none = none
prepend c (some (w, rest)) = some (c ∷ w, rest)

-- The do-while loop of getword, with the room that is left in `buf`.
unfoldable pub take_word : ℕ → List ℕ → Option (List ℕ × List ℕ)
take_word zero cs = none
take_word (suc room) [] = none
take_word (suc room) (c ∷ cs) =
    let more : Option (List ℕ × List ℕ) = take_word room cs in
    if ends_word cs then some (c ∷ [], cs) else prepend c more

abbrev pub starts_quote : List ℕ → Bool
starts_quote [] = false
starts_quote (c ∷ cs) = c == b'"'

unfoldable pub getword : List ℕ → Option (List ℕ × List ℕ)
unfolding skip_whitespace
getword cs =
    let cs' : List ℕ = skip_whitespace cs in
    if at_eol cs' || starts_quote cs' then none else take_word 255 cs'

-- The loop of getstring, behind the opening quote. A backslash takes the next byte as it is.
unfoldable pub take_quoted : ℕ → List ℕ → Option (List ℕ × List ℕ)
take_quoted zero cs = none
take_quoted (suc room) [] = none
take_quoted (suc room) (c ∷ []) = if c == b'"' then some ([], []) else none
take_quoted (suc room) (c ∷ d ∷ cs) =
    let plain : Option (List ℕ × List ℕ) = take_quoted room (d ∷ cs) in
    let escaped : Option (List ℕ × List ℕ) = take_quoted room cs in
    if c == 10
    then none
    else (if c == b'"'
        then some ([], d ∷ cs)
        else (if c == 92 then prepend d escaped else prepend c plain))

abbrev pub behind : List ℕ → List ℕ
behind [] = []
behind (c ∷ cs) = cs

unfoldable pub getstring : List ℕ → Option (List ℕ × List ℕ)
unfolding skip_whitespace
getstring cs =
    let cs' : List ℕ = skip_whitespace cs in
    if at_eol cs'
    then none
    else (if starts_quote cs' then take_quoted 255 (behind cs') else getword cs')
