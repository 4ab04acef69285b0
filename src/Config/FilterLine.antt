-- ===== src/Config/FilterLine.antt =====
-- configuration.c: parse_filter, the description of a filter on one line. (calloc is taken to find
-- memory.) A number is stored in an unsigned char whatever it is.
pub mod Laws
pub mod Ends
use rabeld.Prelude.{
  ℕ, suc, ◌+◌, ◌-◌, ◌%◌, Bool, true, false, ltb, leb, ◌==◌, ◌&&◌, ◌||◌, not, if◌then◌else◌, min,
  max, List, [], ◌∷◌, length, Option, some, none,
}
use rabeld.Prelude.Int.{ℤ, pos, negsuc}
use rabeld.Util.Text.{Libc, Net, Address, inet, inet6, bytes_of}
use rabeld.Source.{infinity}
use rabeld.Config.{Family, af_unspec, af_inet, af_inet6, Filter, FilterResult}
use rabeld.Config.Lexer.{codes, getstring}
use rabeld.Config.Matching.{babel_local, blank_filter}
use rabeld.Config.Values.{Keywords, on_value, on_nothing, getint, getip, getid, getnet, parse_words}

abbrev pub family_of : Address → Family
family_of (inet a) = af_inet
family_of (inet6 a) = af_inet6

-- The family becomes that of the address, or must be it.
abbrev pub join_family : Family → Address → Option Family
join_family af_unspec a = some (family_of a)
join_family af_inet (inet a) = some af_inet
join_family af_inet (inet6 a) = none
join_family af_inet6 (inet a) = none
join_family af_inet6 (inet6 a) = some af_inet6

abbrev pub with_family : Net → Filter → Option Filter
with_family n f = elim (join_family f.af n.address) [
  | none ↦ none
  | some af ↦ some (record f { af = af })
]

-- `(unsigned char) MAX(old, p)` and `(unsigned char) MIN(old, p)`
abbrev pub at_least : ℕ → ℤ → ℕ
at_least old (pos n) = max old n % 256
at_least old (negsuc n) = old % 256

abbrev pub at_most : ℕ → ℤ → ℕ
at_most old (pos n) = min old n % 256
at_most old (negsuc n) = 255 - n % 256

abbrev pub change_le : ℤ → Filter → Option Filter
change_le p f = some (record f { plen_le = at_most f.plen_le p })

abbrev pub change_ge : ℤ → Filter → Option Filter
change_ge p f = some (record f { plen_ge = at_least f.plen_ge p })

abbrev pub change_eq : ℤ → Filter → Option Filter
change_eq p f = some (record f { plen_ge = at_least f.plen_ge p; plen_le = at_most f.plen_le p })

abbrev pub change_src_le : ℤ → Filter → Option Filter
change_src_le p f = some (record f { src_plen_le = at_most f.src_plen_le p })

abbrev pub change_src_ge : ℤ → Filter → Option Filter
change_src_ge p f = some (record f { src_plen_ge = at_least f.src_plen_ge p })

abbrev pub change_src_eq : ℤ → Filter → Option Filter
change_src_eq p f =
    some
      (record f { src_plen_ge = at_least f.src_plen_ge p; src_plen_le = at_most f.src_plen_le p })

-- A number from 1 to INFINITY.
abbrev pub positive : ℤ → Option ℕ
positive (pos n) = if n == 0 || ltb infinity n then none else some n
positive (negsuc n) = none

abbrev pub change_action : (FilterResult → FilterResult) → Filter → Filter
change_action g f = record f { action = g f.action }

abbrev pub change_metric : ℤ → Filter → Option Filter
change_metric p f = elim (positive p) [
  | none ↦ none
  | some n ↦ some (change_action (λ a. record a { add_metric = n }) f)
]

abbrev pub change_table : ℤ → Filter → Option Filter
change_table p f = elim (positive p) [
  | none ↦ none
  | some n ↦ some (change_action (λ a. record a { table = n }) f)
]

-- `memset(&filter->action.src_prefix, 0, 16)` clears the pointer and, where it has 8 bytes, the two
-- fields of 4 bytes behind it.
abbrev pub clear_16 : FilterResult → FilterResult
clear_16 a = record a { src_prefix = none; add_metric = 0; table = 0 }

abbrev pub set_src_prefix : Net → FilterResult → FilterResult
set_src_prefix n a = record a { src_prefix = some (bytes_of n.address); src_plen = n.plen }

abbrev pub is_inet : Address → Bool
is_inet (inet a) = true
is_inet (inet6 a) = false

unfoldable pub change_src_prefix : Net → Filter → Option Filter
change_src_prefix n f = elim (with_family n f) [
  | none ↦ none
  | some f' ↦
      let f'' : Filter = change_action (set_src_prefix n) f' in
      some (if is_inet n.address && n.plen == 96 then change_action clear_16 f'' else f'')
]

abbrev pub change_ip : Net → Filter → Option Filter
change_ip n f = with_family n (record f { prefix = some (bytes_of n.address); plen = n.plen })

abbrev pub change_src_ip : Net → Filter → Option Filter
change_src_ip n f =
    with_family n (record f { src_prefix = some (bytes_of n.address); src_plen = n.plen })

abbrev pub change_neigh : Address → Filter → Option Filter
change_neigh a f = some (record f { neigh = some (bytes_of a) })

abbrev pub change_id : List ℕ → Filter → Option Filter
change_id id f = some (record f { id = some id })

abbrev pub change_proto : ℤ → Filter → Option Filter
change_proto p f = some (record f { proto = p })

abbrev pub change_interface : Libc → List ℕ → Filter → Option Filter
change_interface c name f = some (record f { ifname = some name; ifindex = c.if_nametoindex name })

unfoldable pub filter_keywords : Libc → Keywords Filter
unfolding change_src_prefix
filter_keywords c =
    (codes "ip", on_value (getnet c) change_ip)
    ∷ (codes "src-ip", on_value (getnet c) change_src_ip)
    ∷ (codes "eq", on_value (getint c) change_eq)
    ∷ (codes "le", on_value (getint c) change_le)
    ∷ (codes "ge", on_value (getint c) change_ge)
    ∷ (codes "src-eq", on_value (getint c) change_src_eq)
    ∷ (codes "src-le", on_value (getint c) change_src_le)
    ∷ (codes "src-ge", on_value (getint c) change_src_ge)
    ∷ (codes "neigh", on_value (getip c) change_neigh)
    ∷ (codes "id", on_value (getid c) change_id)
    ∷ (codes "proto", on_value (getint c) change_proto)
    ∷ (codes "local", on_nothing (λ f. record f { proto = babel_local }))
    ∷ (codes "if", on_value getstring (change_interface c))
    ∷ (codes "allow", on_nothing (change_action (λ a. record a { add_metric = 0 })))
    ∷ (codes "deny", on_nothing (change_action (λ a. record a { add_metric = infinity })))
    ∷ (codes "metric", on_value (getint c) change_metric)
    ∷ (codes "src-prefix", on_value (getnet c) change_src_prefix)
    ∷ (codes "table", on_value (getint c) change_table)
    ∷ []

-- The limits of a filter for IPv4 count from bit 96 on.
unfoldable pub finish_filter : Filter → Filter
finish_filter f = elim (f.af) [
  | af_unspec ↦
      if ltb f.plen_le 128 || (ltb 0 f.plen_ge || (ltb f.src_plen_le 128 || ltb 0 f.src_plen_ge))
      then (record f { af = af_inet6 })
      else f
  | af_inet ↦ record f { plen_le = (f.plen_le + 96) % 256; plen_ge = (f.plen_ge + 96) % 256 }
  | af_inet6 ↦ f
]

-- With the rounds of the loop.
unfoldable pub parse_filter_in : ℕ → Libc → List ℕ → Option (Filter × List ℕ)
unfolding finish_filter
parse_filter_in rounds c cs = elim (parse_words rounds (filter_keywords c) cs blank_filter) [
  | none ↦ none
  | some (f, rest) ↦ some (finish_filter f, rest)
]

unfoldable pub parse_filter : Libc → List ℕ → Option (Filter × List ℕ)
unfolding parse_filter_in
parse_filter c cs = parse_filter_in (suc (length cs)) c cs
