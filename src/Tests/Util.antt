-- ===== src/Tests/Util.antt =====
-- util.c and util.h at fixed inputs.
use rabeld.Prelude.{ℕ, ◌≡◌, refl, arith, true, false, Ordering, List, [], ◌∷◌, ◌++◌, replicate, set}
use rabeld.Prelude.Int.{negsuc}
use rabeld.Prelude.Bytes.{memcmp}
use rabeld.Util.Seqno.{seqno_compare, seqno_plus}
use rabeld.Util.Timeval.{Timeval}
use rabeld.Util.Prefix.{in_prefix, normalize_prefix, prefix_cmp, martian_prefix, equals}
use rabeld.Util.Prefix.Laws.{prefix_cmp-ignores_partial_byte}

seqno_wraps : seqno_compare 3 65530 ≡ Ordering.gt
unfolding seqno_compare
seqno_wraps = refl

seqno_opposite : (seqno_compare 0 0x8000 ≡ Ordering.gt) × (seqno_compare 0x8000 0 ≡ Ordering.gt)
unfolding seqno_compare
seqno_opposite = (refl, refl)

seqno_back : seqno_plus 2 (negsuc 4) ≡ 65533
unfolding seqno_plus
seqno_back = refl

abbrev noon : Timeval
noon = record { sec = 43200; usec = 999_999 }

abbrev earlier : Timeval
earlier = record { sec = 43198; usec = 500 }

-- 2001:db8:f0:: and 2001:db8:ff::
abbrev net_f0 : List ℕ
net_f0 = 0x20 ∷ 0x01 ∷ 0x0d ∷ 0xb8 ∷ 0 ∷ 0xf0 ∷ replicate 10 0

abbrev net_ff : List ℕ
net_ff = 0x20 ∷ 0x01 ∷ 0x0d ∷ 0xb8 ∷ 0 ∷ 0xff ∷ replicate 10 0

in_prefix_runs : (in_prefix net_ff net_f0 44 ≡ true) × (in_prefix net_ff net_f0 45 ≡ false)
unfolding in_prefix memcmp
in_prefix_runs = (refl, refl)

normalize_prefix_run : normalize_prefix net_ff 45 ≡ set net_ff 5 0xf8
unfolding normalize_prefix
normalize_prefix_run = refl

-- The prefixes differ in bit 44, and yet compare equal at length 45.
prefix_cmp_misses : prefix_cmp net_f0 45 net_ff 45 ≡ equals
unfolding prefix_cmp memcmp
prefix_cmp_misses = refl

martian_runs :
    (martian_prefix (replicate 15 0 ++ 1 ∷ []) 128 ≡ true) × (martian_prefix net_f0 44 ≡ false)
unfolding martian_prefix memcmp
martian_runs = (refl, refl)

abbrev mapped : List ℕ
mapped = replicate 10 0 ++ 0xff ∷ 0xff ∷ 10 ∷ 1 ∷ 2 ∷ 3 ∷ []

prefix_cmp-ignores_partial_byte_example :
    prefix_cmp mapped 108 (set mapped 13 0xa0) 108 ≡ prefix_cmp mapped 108 mapped 108
prefix_cmp-ignores_partial_byte_example =
    prefix_cmp-ignores_partial_byte mapped mapped 108 108 0xa0 (omega arith) (omega arith)
