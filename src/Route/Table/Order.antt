-- ===== src/Route/Table/Order.antt =====
-- route.c: route_compare is a total order on destinations, and the table's slots are sorted by it.
use rabeld.Prelude.{
  ℕ, zero, suc, ◌≡◌, refl, compare, Ordering, arith, ltb, ◌==◌, ◌&&◌, if◌then◌else◌,
}
use rabeld.Prelude.Order.{flip, Fits, then_compare, compare-Fits, then_compare-Fits, compare-flip}
use rabeld.Prelude.Bytes.{memcmp-Fits, memcmp-flip}
use rabeld.Source.{Source}
use rabeld.Resend.{Destination}
use rabeld.Route.Table.{destination, route_compare}

-- The comparison once prefix, length and source prefix have been compared to a, b and s.
abbrev joined : ℕ → ℕ → Ordering → Ordering → Ordering → Ordering
joined m n a b s =
    if m == 0 && ltb 0 n
    then Ordering.gt
    else (if ltb 0 m && n == 0
        then Ordering.lt
        else then_compare a (
            then_compare b (
              if m == 0
              then (if ltb 0 n then Ordering.lt else Ordering.eq)
              else then_compare s (compare m n))))

joined-flip :
    (m n : ℕ) (a b s a' b' s' : Ordering)
    → a' ≡ flip a
    → b' ≡ flip b
    → s' ≡ flip s
    → joined n m a' b' s' ≡ flip (joined m n a b s)
joined-flip m n a b s a' b' s' p q r = ground arith

Fits-gt : (o : Ordering) → Fits o Ordering.gt Ordering.gt
Fits-gt Ordering.lt = tt
Fits-gt Ordering.eq = refl
Fits-gt Ordering.gt = refl

Fits-lt : (o : Ordering) → Fits o Ordering.lt Ordering.lt
Fits-lt Ordering.lt = refl
Fits-lt Ordering.eq = refl
Fits-lt Ordering.gt = tt

gt-Fits : (o : Ordering) → Fits Ordering.gt o Ordering.gt
gt-Fits Ordering.lt = tt
gt-Fits Ordering.eq = refl
gt-Fits Ordering.gt = refl

lt-Fits : (o : Ordering) → Fits Ordering.lt o Ordering.lt
lt-Fits Ordering.lt = refl
lt-Fits Ordering.eq = refl
lt-Fits Ordering.gt = tt

joined-less : (n : ℕ) (a b s : Ordering) → joined 0 (suc n) a b s ≡ Ordering.gt
joined-less n a b s = ground arith

joined-more : (m : ℕ) (a b s : Ordering) → joined (suc m) 0 a b s ≡ Ordering.lt
joined-more m a b s = ground arith

joined-none : (a b s : Ordering) → joined 0 0 a b s ≡ then_compare a (then_compare b Ordering.eq)
joined-none a b s = ground arith

joined-both :
    (m n : ℕ) (a b s : Ordering)
    → joined (suc m) (suc n) a b s
      ≡ then_compare a (then_compare b (then_compare s (compare (suc m) (suc n))))
joined-both m n a b s = ground arith

joined-Fits :
    (l m n : ℕ) (a b s a' b' s' a'' b'' s'' : Ordering)
    → Fits a a' a''
    → Fits b b' b''
    → Fits s s' s''
    → Fits (joined l m a b s) (joined m n a' b' s') (joined l n a'' b'' s'')
joined-Fits zero zero zero a b s a' b' s' a'' b'' s'' p q r =
    rw (joined-none a b s, joined-none a' b' s', joined-none a'' b'' s'')
      (then_compare-Fits _ _ _ _ _ _ p (then_compare-Fits _ _ _ _ _ _ q refl))
joined-Fits zero zero (suc n) a b s a' b' s' a'' b'' s'' p q r =
    rw (joined-less n a' b' s', joined-less n a'' b'' s'') (Fits-gt (joined 0 0 a b s))
joined-Fits zero (suc m) zero a b s a' b' s' a'' b'' s'' p q r =
    rw (joined-less m a b s, joined-more m a' b' s') tt
joined-Fits zero (suc m) (suc n) a b s a' b' s' a'' b'' s'' p q r =
    rw (joined-less m a b s, joined-less n a'' b'' s'') (gt-Fits (joined (suc m) (suc n) a' b' s'))
joined-Fits (suc l) zero zero a b s a' b' s' a'' b'' s'' p q r =
    rw (joined-more l a b s, joined-more l a'' b'' s'') (lt-Fits (joined 0 0 a' b' s'))
joined-Fits (suc l) zero (suc n) a b s a' b' s' a'' b'' s'' p q r =
    rw (joined-more l a b s, joined-less n a' b' s') tt
joined-Fits (suc l) (suc m) zero a b s a' b' s' a'' b'' s'' p q r =
    rw (joined-more m a' b' s', joined-more l a'' b'' s'') (Fits-lt (joined (suc l) (suc m) a b s))
joined-Fits (suc l) (suc m) (suc n) a b s a' b' s' a'' b'' s'' p q r =
    rw (joined-both l m a b s, joined-both m n a' b' s', joined-both l n a'' b'' s'')
      (then_compare-Fits _ _ _ _ _ _ p (
        then_compare-Fits _ _ _ _ _ _ q
          (then_compare-Fits _ _ _ _ _ _ r (compare-Fits (suc l) (suc m) (suc n)))))

pub route_compare-Fits :
    (d : Destination) (s t : Source)
    → Fits (route_compare d s) (route_compare (destination s) t) (route_compare d t)
unfolding route_compare
route_compare-Fits d s t =
    joined-Fits d.src_plen s.src_plen t.src_plen _ _ _ _ _ _ _ _ _
      (memcmp-Fits 16 d.prefix s.prefix t.prefix) (compare-Fits d.plen s.plen t.plen)
      (memcmp-Fits 16 d.src_prefix s.src_prefix t.src_prefix)

pub route_compare-flip :
    (s t : Source) → route_compare (destination t) s ≡ flip (route_compare (destination s) t)
unfolding route_compare
route_compare-flip s t =
    joined-flip s.src_plen t.src_plen _ _ _ _ _ _ (memcmp-flip 16 s.prefix t.prefix)
      (compare-flip s.plen t.plen) (memcmp-flip 16 s.src_prefix t.src_prefix)
