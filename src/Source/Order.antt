-- ===== src/Source/Order.antt =====
-- source.c: source_compare is a total order on the keys of sources, less their `src_plen`.
use rabeld.Prelude.{ℕ, ◌≡◌, Ordering, List}
use rabeld.Prelude.Order.{
  flip, Fits, compare-Fits, then_compare-Fits, compare-flip, then_compare-flip,
}
use rabeld.Prelude.Bytes.{memcmp-Fits, memcmp-flip}
use rabeld.Slots.Order.{IsAscending}
use rabeld.Source.{Source, source_compare}

-- Two sources of the table, compared by their keys.
unfoldable pub order : Source → Source → Ordering
order s t = source_compare s.id s.prefix s.plen s.src_prefix s.src_plen t

-- The table is sorted, with no two sources that compare equal.
abbrev pub IsSorted : List Source → Type 0
IsSorted sources = IsAscending order sources

pub source_compare-Fits :
    (id prefix src_prefix : List ℕ) (plen src_plen : ℕ) (s t : Source)
    → Fits
        (source_compare id prefix plen src_prefix src_plen s)
        (order s t)
        (source_compare id prefix plen src_prefix src_plen t)
unfolding source_compare order
source_compare-Fits id prefix src_prefix plen src_plen s t =
    then_compare-Fits _ _ _ _ _ _ (memcmp-Fits 8 id s.id t.id) (
      then_compare-Fits _ _ _ _ _ _ (compare-Fits plen s.plen t.plen) (
        then_compare-Fits _ _ _ _ _ _ (memcmp-Fits 16 prefix s.prefix t.prefix)
          (memcmp-Fits 16 src_prefix s.src_prefix t.src_prefix)))

pub order-flip : (s t : Source) → order t s ≡ flip (order s t)
unfolding source_compare order
order-flip s t = then_compare-flip _ _ _ _ (memcmp-flip 8 s.id t.id) (
    then_compare-flip _ _ _ _ (compare-flip s.plen t.plen) (
      then_compare-flip _ _ _ _ (memcmp-flip 16 s.prefix t.prefix)
        (memcmp-flip 16 s.src_prefix t.src_prefix)))
