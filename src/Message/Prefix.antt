-- ===== src/Message/Prefix.antt =====
-- message.c: network_prefix, the compressed form of prefixes.
pub mod Laws
use rabeld.Prelude.{
  ℕ, zero, suc, ◌+◌, ◌-◌, ◌/◌, Bool, true, false, ltb, ◌==◌, ◌&&◌, ◌||◌, not, if◌then◌else◌, List,
  [], ◌∷◌, ◌++◌, take, drop, replicate, get_or, Option, some, none,
}
use rabeld.Util.Prefix.{v4prefix, zeroes, v4mapped, normalize_prefix}

-- The n bytes from a pointer on.
abbrev pub bytes : ℕ → List ℕ → List ℕ
bytes zero p = []
bytes (suc n) p = get_or p 0 0 ∷ bytes n (drop 1 p)

-- `pb`, the bytes that the prefix takes without compression; `plen` is `none` for -1.
abbrev pub prefix_bytes : ℕ → Option ℕ → ℕ
prefix_bytes ae none = if ae == 1 then 4 else 16
prefix_bytes ae (some plen) = (plen + 7) / 8

-- The buffer filled up with the zeros of memset.
unfoldable pub fill : List ℕ → List ℕ
fill p = bytes 16 p

-- The cases of the switch, with `pb`: the buffer and the returned number of bytes. A negative one
-- (of a `pb` less than what is omitted or implied) is `none` as is -1, since no caller looks at the
-- prefix then. `dp` is `none` for NULL.
unfoldable pub network_prefix_of : ℕ → ℕ → ℕ → List ℕ → Option (List ℕ) → ℕ → Option (List ℕ × ℕ)
network_prefix_of zero pb omitted p dp len = some (zeroes, 0)
network_prefix_of (suc zero) pb omitted p dp len =
    if ltb 4 omitted || (ltb 4 pb || ltb omitted pb && ltb len (pb - omitted))
    then none
    else (if omitted == 0 then some (fill (take 12 v4prefix ++ bytes pb p), pb) else (elim dp [
      | none ↦ none
      | some d ↦
          if not (v4mapped d) || ltb pb omitted
          then none
          else some (fill (bytes (12 + omitted) d ++ bytes (pb - omitted) p), pb - omitted)
    ]))
network_prefix_of (suc (suc zero)) pb omitted p dp len =
    if ltb 16 omitted || ltb omitted pb && ltb len (pb - omitted)
    then none
    else (if omitted == 0 then some (fill (bytes pb p), pb) else (elim dp [
      | none ↦ none
      | some d ↦
          if v4mapped d || ltb pb omitted
          then none
          else some (fill (bytes omitted d ++ bytes (pb - omitted) p), pb - omitted)
    ]))
network_prefix_of (suc (suc (suc zero))) pb omitted p dp len =
    if ltb 8 pb && ltb len (pb - 8) || ltb pb 8
    then none
    else some (fill (0xFE ∷ 0x80 ∷ replicate 6 0 ++ bytes (pb - 8) p), pb - 8)
network_prefix_of (suc (suc (suc (suc n)))) pb omitted p dp len = none

-- The length that the prefix is normalised to.
abbrev pub full_length : ℕ → Option ℕ → ℕ
full_length ae none = 128
full_length ae (some plen) = if ae == 1 then plen + 96 else plen

unfoldable pub network_prefix :
    ℕ → Option ℕ → ℕ → List ℕ → Option (List ℕ) → ℕ → Option (List ℕ × ℕ)
network_prefix ae plen omitted p dp len =
    let pb : ℕ = prefix_bytes ae plen in
    if ltb 16 pb then none else elim (network_prefix_of ae pb omitted p dp len) [
      | none ↦ none
      | some (prefix, ret) ↦ some (normalize_prefix prefix (full_length ae plen), ret)
    ]

unfoldable pub network_address : ℕ → List ℕ → ℕ → Option (List ℕ × ℕ)
network_address ae a len = network_prefix ae none 0 a none len
