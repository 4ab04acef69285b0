-- ===== src/Util/Prefix.antt =====
-- util.c and util.h: address prefixes. An address is 16 bytes, an IPv4 address is mapped into the
-- IPv6 prefix v4prefix, and `plen` counts bits.
pub mod Bits
pub mod Laws
pub mod Normal
use rabeld.Prelude.{
  ℕ, zero, suc, ◌+◌, ◌-◌, ◌*◌, ◌/◌, ◌%◌, ◌^◌, ◌≤◌, ◌<◌, ◌≡◌, refl, Bool, Ordering, arith, ltb, leb,
  ◌==◌, if◌then◌else◌, ◌||◌, ◌&&◌, true, false, bit_and, List, [], ◌∷◌, ◌++◌, take, drop, replicate,
  get_or, set, length, not, min, bool_eq,
}
use rabeld.Prelude.Bytes.{memcmp, mem_eq}

abbrev pub v4prefix : List ℕ
v4prefix = 0 ∷ 0 ∷ 0 ∷ 0 ∷ 0 ∷ 0 ∷ 0 ∷ 0 ∷ 0 ∷ 0 ∷ 0xFF ∷ 0xFF ∷ 0 ∷ 0 ∷ 0 ∷ 0 ∷ []

abbrev pub zeroes : List ℕ
zeroes = replicate 16 0

-- The words of the two buffers are compared by exclusive or: 0 exactly when all 16 bytes agree.
unfoldable pub v6_equal : List ℕ → List ℕ → Bool
v6_equal p1 p2 = mem_eq 16 p1 p2

-- The first 12 bytes are compared with those of `v4prefix`, as one long and one int.
unfoldable pub v4mapped : List ℕ → Bool
v4mapped address = mem_eq 12 address v4prefix

unfoldable pub linklocal : List ℕ → Bool
linklocal address = get_or address 0 0 == 0xFE && get_or address 1 0 == 0x80

unfoldable pub v4tov6 : List ℕ → List ℕ
v4tov6 src = take 12 v4prefix ++ take 4 src

-- `(unsigned char) (0xFF << k)`
abbrev pub shift_mask : ℕ → ℕ
shift_mask k = 0xFF * 2 ^ k % 256

-- in_prefix once `plen` is at most 128
unfoldable pub in_prefix_of : List ℕ → List ℕ → ℕ → Bool
in_prefix_of address prefix n =
    if not (mem_eq (n / 8) address prefix)
    then false
    else (if n % 8 == 0
        then true
        else bit_and (get_or address (n / 8) 0) (shift_mask (8 - n % 8))
          == bit_and (get_or prefix (n / 8) 0) (shift_mask (8 - n % 8)))

unfoldable pub in_prefix : List ℕ → List ℕ → ℕ → Bool
unfolding in_prefix_of
in_prefix address prefix plen = in_prefix_of address prefix (if ltb 128 plen then 128 else plen)

-- The contents of `ret`.
unfoldable pub normalize_prefix : List ℕ → ℕ → List ℕ
normalize_prefix prefix plen =
    if leb 128 plen
    then take 16 prefix
    else (let ret : List ℕ = take (plen / 8) prefix ++ replicate (16 - plen / 8) 0 in
        if plen % 8 == 0
        then ret
        else set ret (plen / 8)
            (bit_and (get_or prefix (plen / 8) 0) (bit_and (0xFF * 2 ^ (8 - plen % 8)) 0xFF)))

pub data PrefixStatus : Type 0 where
  equals disjoint more_specific less_specific : PrefixStatus

-- The byte that is compared last is the one at `plen / 8 + 1`, under the mask
-- `0xFF << (plen % 8)`.
unfoldable pub prefix_cmp : List ℕ → ℕ → List ℕ → ℕ → PrefixStatus
unfolding v4mapped
prefix_cmp p1 plen1 p2 plen2 =
    let plen : ℕ = min plen1 plen2 in
    let i : ℕ = plen / 8 + 1 in
    let mask : ℕ = shift_mask (plen % 8) in
    if not (bool_eq (v4mapped p1) (v4mapped p2))
    then disjoint
    else (if not (mem_eq (plen / 8) p1 p2)
        then disjoint
        else (if not (plen % 8 == 0)
              && not (bit_and (get_or p1 i 0) mask == bit_and (get_or p2 i 0) mask)
            then disjoint
            else (if ltb plen1 plen2
                then less_specific
                else (if ltb plen2 plen1 then more_specific else equals))))

-- The result of the test; the message that it prints is left out.
unfoldable pub martian_prefix : List ℕ → ℕ → Bool
unfolding v4mapped
martian_prefix prefix plen =
    (leb 8 plen && get_or prefix 0 0 == 0xFF)
    || (leb 10 plen && get_or prefix 0 0 == 0xFE && bit_and (get_or prefix 1 0) 0xC0 == 0x80)
    || (leb 128 plen
        && mem_eq 15 prefix zeroes
        && (get_or prefix 15 0 == 0 || get_or prefix 15 0 == 1))
    || (leb 96 plen
        && v4mapped prefix
        && ((leb 104 plen && (get_or prefix 12 0 == 127 || get_or prefix 12 0 == 0))
            || (leb 100 plen && bit_and (get_or prefix 12 0) 0xE0 == 0xE0)))
