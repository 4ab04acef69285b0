-- ===== src/Message/Updates.antt =====
-- message.c: the order in which buffered updates are sent.
use rabeld.Prelude.{
  ℕ, ◌≡◌, arith, compare, Ordering, Bool, true, false, ◌==◌, ◌&&◌, not, List, drop,
}
use rabeld.Prelude.Order.{
  flip, Fits, then_compare, compare-Fits, then_compare-Fits, compare-flip, then_compare-flip,
}
use rabeld.Prelude.Bytes.{memcmp, mem_eq, memcmp-Fits, memcmp-flip}
use rabeld.Resend.{Destination}
use rabeld.Message.Send.{is_v4}

pub record BufferedUpdate : Type 0 where
  pub id : List ℕ
  pub to : Destination

-- The flags as ints.
abbrev as_int : Bool → ℕ
as_int true = 1
as_int false = 0

-- `ma` and `mb`: the router-id is the end of the prefix.
unfoldable pub is_own_prefix : BufferedUpdate → Bool
is_own_prefix u = not (is_v4 u.to) && (u.to.plen == 128 && mem_eq 8 (drop 8 u.to.prefix) u.id)

-- Router-ids together, IPv6 before IPv4, the prefix that implies the router-id first, and then
-- longer prefixes before shorter ones.
unfoldable pub compare_buffered_updates : BufferedUpdate → BufferedUpdate → Ordering
compare_buffered_updates a b = then_compare (memcmp 8 a.id b.id) (
    then_compare (compare (as_int (is_v4 a.to)) (as_int (is_v4 b.to))) (
      then_compare (compare (as_int (is_own_prefix b)) (as_int (is_own_prefix a))) (
        then_compare (compare b.to.plen a.to.plen) (
          then_compare (memcmp 16 a.to.prefix b.to.prefix) (
            then_compare (compare a.to.src_plen b.to.src_plen)
              (memcmp 16 a.to.src_prefix b.to.src_prefix))))))

-- A larger number first.
descending-Fits : (a b c : ℕ) → Fits (compare b a) (compare c b) (compare c a)
descending-Fits a b c = ground arith

compare_buffered_updates-flip :
    (a b : BufferedUpdate) → compare_buffered_updates b a ≡ flip (compare_buffered_updates a b)
unfolding compare_buffered_updates
compare_buffered_updates-flip a b = then_compare-flip _ _ _ _ (memcmp-flip 8 a.id b.id) (
    then_compare-flip _ _ _ _ (compare-flip (as_int (is_v4 a.to)) (as_int (is_v4 b.to))) (
      then_compare-flip _ _ _ _ (compare-flip (as_int (is_own_prefix b)) (as_int (is_own_prefix a)))
        (then_compare-flip _ _ _ _ (compare-flip b.to.plen a.to.plen) (
          then_compare-flip _ _ _ _ (memcmp-flip 16 a.to.prefix b.to.prefix) (
            then_compare-flip _ _ _ _ (compare-flip a.to.src_plen b.to.src_plen)
              (memcmp-flip 16 a.to.src_prefix b.to.src_prefix))))))

compare_buffered_updates-Fits :
    (a b c : BufferedUpdate)
    → Fits
        (compare_buffered_updates a b)
        (compare_buffered_updates b c)
        (compare_buffered_updates a c)
unfolding compare_buffered_updates
compare_buffered_updates-Fits a b c = then_compare-Fits _ _ _ _ _ _ (memcmp-Fits 8 a.id b.id c.id) (
    then_compare-Fits _ _ _ _ _ _
      (compare-Fits (as_int (is_v4 a.to)) (as_int (is_v4 b.to)) (as_int (is_v4 c.to)))
      (then_compare-Fits _ _ _ _ _ _
        (descending-Fits (as_int (is_own_prefix a)) (as_int (is_own_prefix b))
          (as_int (is_own_prefix c)))
        (then_compare-Fits _ _ _ _ _ _ (descending-Fits a.to.plen b.to.plen c.to.plen) (
          then_compare-Fits _ _ _ _ _ _ (memcmp-Fits 16 a.to.prefix b.to.prefix c.to.prefix) (
            then_compare-Fits _ _ _ _ _ _ (compare-Fits a.to.src_plen b.to.src_plen c.to.src_plen)
              (memcmp-Fits 16 a.to.src_prefix b.to.src_prefix c.to.src_prefix))))))

-- Whether two updates are for the same destination, as flushupdates compares them.
abbrev pub IsSameUpdate : BufferedUpdate → BufferedUpdate → Type 0
IsSameUpdate a b =
    (memcmp 8 a.id b.id ≡ Ordering.eq)
    × (a.to.plen ≡ b.to.plen)
    × (memcmp 16 a.to.prefix b.to.prefix ≡ Ordering.eq)
    × (a.to.src_plen ≡ b.to.src_plen)
    × (memcmp 16 a.to.src_prefix b.to.src_prefix ≡ Ordering.eq)

first_eq : (c d : Ordering) → then_compare c d ≡ Ordering.eq → (c ≡ Ordering.eq) × (d ≡ Ordering.eq)
first_eq c d e = ground arith

compare_buffered_updates-eq :
    (a b : BufferedUpdate) → compare_buffered_updates a b ≡ Ordering.eq → IsSameUpdate a b
unfolding compare_buffered_updates
compare_buffered_updates-eq a b e =
    let (id, e₁) = first_eq _ _ e in
    let (v4, e₂) = first_eq (compare (as_int (is_v4 a.to)) (as_int (is_v4 b.to))) _ e₁ in
    let (own, e₃) = first_eq (compare (as_int (is_own_prefix b)) (as_int (is_own_prefix a))) _ e₂ in
    let (plen, e₄) = first_eq (compare b.to.plen a.to.plen) _ e₃ in
    let (prefix, e₅) = first_eq (memcmp 16 a.to.prefix b.to.prefix) _ e₄ in
    let (src_plen, src_prefix) = first_eq (compare a.to.src_plen b.to.src_plen) _ e₅ in
    (id, ground (arith, plen), prefix, ground (arith, src_plen), src_prefix)

-- compare_buffered_updates is a total order, as qsort wants it: exchanging the updates turns the
-- result round, the results for a and b and for b and c fit that for a and c, and it is 0 only for
-- updates with the same router-id and destination, so that these stand together once the buffer is
-- sorted.
pub compare_buffered_updates_lem :
    (a b c : BufferedUpdate)
    → (compare_buffered_updates b a ≡ flip (compare_buffered_updates a b))
      × Fits
          (compare_buffered_updates a b)
          (compare_buffered_updates b c)
          (compare_buffered_updates a c)
      × (compare_buffered_updates a b ≡ Ordering.eq → IsSameUpdate a b)
compare_buffered_updates_lem a b c = (
  compare_buffered_updates-flip a b,
  compare_buffered_updates-Fits a b c,
  compare_buffered_updates-eq a b,
)
