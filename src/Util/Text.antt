-- ===== src/Util/Text.antt =====
-- util.c: the text forms of numbers, addresses and prefixes. A text is the list of its bytes. The C
-- library's functions are a parameter.
pub mod Thousands
use rabeld.Prelude.{
  ℕ, zero, suc, ◌+◌, ◌-◌, ◌*◌, ◌/◌, ◌%◌, ◌^◌, Bool, true, false, ltb, leb, ◌==◌, ◌&&◌, ◌||◌, not,
  if◌then◌else◌, List, [], ◌∷◌, ◌++◌, take, replicate, length, get_or, Option, some, none,
}
use rabeld.Prelude.Int.{ℤ, pos, negsuc}
use rabeld.Util.Prefix.{v4prefix, normalize_prefix}

-- strtol returns the number, as an int where its caller has one, and what is left of the text;
-- inet_pton gives the bytes of an address of its family; sscanf gives the numbers that it converts
-- of up to eight hexadecimal pairs, with the separator.
pub record Libc : Type 0 where
  pub strtol : List ℕ → ℤ × List ℕ
  pub inet_pton4 : List ℕ → Option (List ℕ)
  pub inet_pton6 : List ℕ → Option (List ℕ)
  pub sscanf : ℕ → List ℕ → List ℕ
  pub if_nametoindex : List ℕ → ℕ

abbrev pub is_space : ℕ → Bool
is_space c = c == b' ' || c == 9

unfoldable pub skip_spaces : List ℕ → List ℕ
skip_spaces [] = []
skip_spaces (c ∷ cs) = if is_space c then skip_spaces cs else c ∷ cs

abbrev pub is_end : List ℕ → Bool
is_end [] = true
is_end (c ∷ cs) = false

abbrev pub int_max : ℕ
int_max = 2 ^ 31 - 1

-- `none` is -1.
unfoldable pub parse_nat : Libc → List ℕ → Option ℕ
unfolding skip_spaces
parse_nat c string =
    let (l, end) = c.strtol string in
    if not (is_end (skip_spaces end))
    then none
    else elim l [ negsuc n ↦ none | pos n ↦ if ltb int_max n then none else some n ]

abbrev pub is_digit : ℕ → Bool
is_digit c = leb b'0' c && leb c b'9'

-- A run of digits, in an unsigned int: its value, how many there are, and the rest of the text.
pub record Digits : Type 0 where
  pub value : ℕ
  pub count : ℕ
  pub rest : List ℕ

unfoldable pub take_digits : ℕ → ℕ → List ℕ → Digits
take_digits value count [] = record { value = value; count = count; rest = [] }
take_digits value count (c ∷ cs) =
    if is_digit c
    then take_digits ((value * 10 + c - b'0') % 2 ^ 32) (count + 1) cs
    else record { value = value; count = count; rest = c ∷ cs }

-- The loop while j > 3.
unfoldable pub drop_digits : ℕ → ℕ → ℕ
drop_digits zero value = value
drop_digits (suc more) value = drop_digits more (value / 10)

-- The two loops that make the digits behind the point three.
unfoldable pub three_digits : ℕ → ℕ → ℕ
unfolding drop_digits
three_digits value count =
    if ltb 3 count then drop_digits (count - 3) value else value * 10 ^ (3 - count) % 2 ^ 32

-- What parse_thousands returns: a negative int is an error for its callers, as is -1.
abbrev pub nonnegative : ℕ → Option ℕ
nonnegative n = if ltb n (2 ^ 31) then some n else none

abbrev starts_dot : List ℕ → Bool
starts_dot [] = false
starts_dot (c ∷ cs) = c == b'.'

abbrev behind : List ℕ → List ℕ
behind [] = []
behind (c ∷ cs) = cs

unfoldable pub fraction : List ℕ → ℕ × List ℕ
unfolding take_digits three_digits
fraction cs =
    if starts_dot cs
    then (let d : Digits = take_digits 0 0 (behind cs) in (three_digits d.value d.count, d.rest))
    else (0, cs)

-- The part of parse_thousands behind the first run of digits.
unfoldable pub with_fraction : Digits → Option ℕ
unfolding skip_spaces fraction
with_fraction d =
    let (fl, rest) = fraction d.rest in
    if is_end (skip_spaces rest) then nonnegative ((d.value * 1000 + fl) % 2 ^ 32) else none

unfoldable pub parse_thousands : List ℕ → Option ℕ
unfolding skip_spaces take_digits with_fraction
parse_thousands string = with_fraction (take_digits 0 0 (skip_spaces string))

-- AF_INET and AF_INET6, with the bytes.
pub data Address : Type 0 where
  inet inet6 : List ℕ → Address

abbrev pub bytes_of : Address → List ℕ
bytes_of (inet a) = a
bytes_of (inet6 a) = a

unfoldable pub parse_address : Libc → List ℕ → Option Address
parse_address c address = elim (c.inet_pton4 address) [
  | some ina ↦ some (inet (take 12 v4prefix ++ take 4 ina))
  | none ↦ elim (c.inet_pton6 address) [ some ina6 ↦ some (inet6 (take 16 ina6)) | none ↦ none ]
]

-- The text up to the first slash, and behind it; `none` where there is none.
unfoldable pub split_slash : List ℕ → Option (List ℕ × List ℕ)
split_slash [] = none
split_slash (c ∷ cs) =
    let later : Option (List ℕ × List ℕ) = split_slash cs in
    if c == b'/'
    then some ([], cs)
    else (elim later [ none ↦ none | some (front, rest) ↦ some (c ∷ front, rest) ])

-- A prefix with its family and length.
pub record Net : Type 0 where
  pub address : Address
  pub plen : ℕ

abbrev pub normal : Address → ℕ → Net
normal (inet a) plen = record { address = inet (normalize_prefix a plen); plen = plen }
normal (inet6 a) plen = record { address = inet6 (normalize_prefix a plen); plen = plen }

-- The length behind the slash, at most `top`; `offset` is 96 for an IPv4 address.
unfoldable pub with_length : Libc → Address → List ℕ → ℕ → ℕ → Option Net
with_length c a digits top offset =
    let (l, end) = c.strtol digits in
    if not (is_end end) then none else elim l [
      | negsuc n ↦ none
      | pos n ↦ if ltb top n then none else some (normal a (n + offset))
    ]

-- INET6_ADDRSTRLEN is 46. `is_default` is whether the text is "default".
unfoldable pub parse_net : Libc → Bool → List ℕ → Option Net
unfolding split_slash parse_address with_length
parse_net c is_default net =
    if is_default then some (normal (inet6 (replicate 16 0)) 0) else elim (split_slash net) [
      | none ↦ elim (parse_address c net) [ none ↦ none | some a ↦ some (normal a 128) ]
      | some (front, rest) ↦ if leb 46 (length front) then none else elim (c.inet_pton4 front) [
        | some ina ↦ with_length c (inet (take 12 v4prefix ++ take 4 ina)) rest 32 96
        | none ↦ elim (c.inet_pton6 front) [
          | some ina6 ↦ with_length c (inet6 (take 16 ina6)) rest 128 0
          | none ↦ none
        ]
      ]
    ]

-- Eight pairs with colons or dashes, or the six of an Ethernet address with FF:FE in the middle.
unfoldable pub parse_eui64 : Libc → List ℕ → Option (List ℕ)
parse_eui64 c eui =
    let colons : List ℕ = c.sscanf b':' eui in
    let dashes : List ℕ = c.sscanf b'-' eui in
    let six : List ℕ = take 6 colons in
    if leb 8 (length colons)
    then some (take 8 colons)
    else (if leb 8 (length dashes)
        then some (take 8 dashes)
        else (if length six == 6
            then some
                (take 3 six ++ 0xFF ∷ 0xFE ∷ get_or six 3 0 ∷ get_or six 4 0 ∷ get_or six 5 0 ∷ [])
            else none))
