-- ===== src/Config/Values.antt =====
-- configuration.c: the readers of values, and the loop that parse_filter and parse_anonymous_ifconf
-- share: a line is a sequence of keywords, each with its values.
pub mod Rounds
pub mod Keeps
use rabeld.Prelude.{
  ℕ, zero, suc, Bool, true, false, ◌||◌, not, if◌then◌else◌, List, [], ◌∷◌, take, Option, some,
  none,
}
use rabeld.Prelude.Int.{ℤ}
use rabeld.Util.Text.{
  Libc, Net, Address, is_end, parse_thousands, parse_address, parse_net, parse_eui64, bytes_of,
}
use rabeld.Config.Lexer.{codes, is_word, skip_whitespace, skip_to_eol, at_eol, getword, getstring}

abbrev pub Reader : Type 0 → Type 0
Reader A = List ℕ → Option (A × List ℕ)

-- A word that a function makes a value of.
abbrev pub of_word : {A : Type 0} → (List ℕ → Option A) → Reader A
of_word f cs = elim (getword cs) [
  | none ↦ none
  | some (t, rest) ↦ elim (f t) [ none ↦ none | some a ↦ some (a, rest) ]
]

abbrev whole : ℤ × List ℕ → Option ℤ
whole (i, end) = if is_end end then some i else none

unfoldable pub getint : Libc → Reader ℤ
getint c = of_word (λ t. whole (c.strtol t))

unfoldable pub getthousands : Reader ℕ
getthousands = of_word parse_thousands

-- CONFIG_DEFAULT, CONFIG_NO and CONFIG_YES
pub data BoolChoice : Type 0 where
  default no_choice yes_choice : BoolChoice

abbrev bool_word : List ℕ → Option BoolChoice
bool_word t =
    if is_word t (codes "true") || is_word t (codes "yes")
    then some yes_choice
    else (if is_word t (codes "false") || is_word t (codes "no")
        then some no_choice
        else (if is_word t (codes "default") || is_word t (codes "auto")
            then some default
            else none))

unfoldable pub getbool : Reader BoolChoice
getbool = of_word bool_word

unfoldable pub getip : Libc → Reader Address
getip c = of_word (parse_address c)

unfoldable pub getid : Libc → Reader (List ℕ)
getid c = of_word (parse_eui64 c)

unfoldable pub getnet : Libc → Reader Net
getnet c = of_word (λ t. parse_net c (is_word t (codes "default")) t)

pub data InterfaceType : Type 0 where
  type_default wired wireless tunnel : InterfaceType

abbrev type_word : List ℕ → Option InterfaceType
type_word t =
    if is_word t (codes "default") || is_word t (codes "auto")
    then some type_default
    else (if is_word t (codes "wired")
        then some wired
        else (if is_word t (codes "wireless")
            then some wireless
            else (if is_word t (codes "tunnel") then some tunnel else none)))

unfoldable pub get_interface_type : Reader InterfaceType
get_interface_type = of_word type_word

-- What a keyword does to the value that is built up: it reads what follows it.
abbrev pub Action : Type 0 → Type 0
Action S = List ℕ → S → Option (S × List ℕ)

abbrev pub on_value : {A S : Type 0} → Reader A → (A → S → Option S) → Action S
on_value read change cs s = elim (read cs) [
  | none ↦ none
  | some (a, rest) ↦ elim (change a s) [ none ↦ none | some s' ↦ some (s', rest) ]
]

abbrev pub on_nothing : {S : Type 0} → (S → S) → Action S
on_nothing change cs s = some (change s, cs)

abbrev pub Keywords : Type 0 → Type 0
Keywords S = List (List ℕ × Action S)

-- The chain of comparisons with strcmp; an unknown keyword is an error.
unfoldable pub dispatch : {S : Type 0} → Keywords S → List ℕ → Action S
dispatch [] token cs s = none
dispatch ((keyword, action) ∷ more) token cs s =
    if is_word token keyword then action cs s else dispatch more token cs s

-- The loop `while(1)`. Each round takes a word at least, so that the length of the text and one more
-- rounds are enough (Config/Values/Rounds.antt).
unfoldable pub parse_words : {S : Type 0} → ℕ → Keywords S → Action S
parse_words zero table cs s = none
parse_words (suc rounds) table cs s =
    if at_eol (skip_whitespace cs)
    then some (s, skip_to_eol (skip_whitespace cs))
    else elim (getword (skip_whitespace cs)) [
      | none ↦ none
      | some (token, rest) ↦ elim (dispatch table token rest s) [
        | none ↦ none
        | some (s', rest') ↦ parse_words rounds table rest' s'
      ]
    ]
