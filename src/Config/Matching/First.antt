-- ===== src/Config/Matching/First.antt =====
-- configuration.c: the first filter that matches decides, and what holds of its answer.
use rabeld.Prelude.{
  ℕ, ◌≤◌, ◌≡◌, refl, arith, Bool, true, false, ◌||◌, if◌then◌else◌, List, [], ◌∷◌, some, Bool-cases,
  inl, inr,
}
use rabeld.Prelude.Int.{ℤ, pos, negsuc}
use rabeld.Prelude.Bytes.{memcmp_refl}
use rabeld.Util.Prefix.{v6_equal}
use rabeld.Source.{infinity}
use rabeld.Config.{Filter, Filters}
use rabeld.Config.Matching.{
  Query, filter_match, do_filter, add_filter, finalise_filters, redistribute_filter, input_filter,
  route_query, babel_local, same_int, no_result, blank_filter, unless_negative, matches_neigh,
  input_query,
}

abbrev pub matches_any : List Filter → Query → Bool
matches_any [] q = false
matches_any (f ∷ fs) q = filter_match f q || matches_any fs q

-- A filter that is added decides only where none of the filters before it matches.
pub do_filter-add_filter :
    (f : Filter) (fs : List Filter) (q : Query)
    → do_filter (add_filter f fs) q
      ≡ (if matches_any fs q then do_filter fs q else do_filter (f ∷ []) q)
unfolding do_filter add_filter
do_filter-add_filter f [] q = refl
do_filter-add_filter f (g ∷ fs) q = elim (Bool-cases (filter_match g q)) [
  | inl e ↦ rw e
  | inr e ↦ rw e (do_filter-add_filter f fs q)
]

last_filter :
    (prefix : List ℕ) (plen : ℕ) (src_prefix : List ℕ) (src_plen ifindex : ℕ) (proto : ℤ)
    → filter_match
        (record blank_filter { proto = babel_local })
        (route_query prefix plen src_prefix src_plen ifindex proto)
      ≡ same_int proto babel_local
unfolding filter_match
last_filter prefix plen src_prefix src_plen ifindex (pos n) = ground arith
last_filter prefix plen src_prefix src_plen ifindex (negsuc n) = ground arith

-- After finalise_config the filters of the configuration still decide on the routes that they match.
-- Of the others, one with protocol -2, which is RTPROT_BABEL_LOCAL as configuration.c reads it, gets
-- metric 0, and every other is refused, so also one with the protocol 254 of a local address.
pub redistribute_filter-finalise_filters :
    (c : Filters) (prefix : List ℕ) (plen : ℕ) (src_prefix : List ℕ) (src_plen ifindex : ℕ)
    (proto : ℤ)
    → redistribute_filter (finalise_filters c) prefix plen src_prefix src_plen ifindex proto ≡ (
        if matches_any c.redistribute_filters
          (route_query prefix plen src_prefix src_plen ifindex proto)
        then redistribute_filter c prefix plen src_prefix src_plen ifindex proto
        else ((if same_int proto babel_local then pos 0 else pos infinity), no_result))
unfolding redistribute_filter finalise_filters do_filter
redistribute_filter-finalise_filters c prefix plen src_prefix src_plen ifindex proto =
    let q : Query = route_query prefix plen src_prefix src_plen ifindex proto in
    rw (do_filter-add_filter (record blank_filter { proto = babel_local }) c.redistribute_filters q)
      (elim (Bool-cases (matches_any c.redistribute_filters q)) [
        | inl e ↦ rw e
        | inr e ↦
            rw (e, last_filter prefix plen src_prefix src_plen ifindex proto)
              (elim (Bool-cases (same_int proto babel_local)) [ inl l ↦ rw l | inr l ↦ rw l ])
      ])

-- No filter adds more than infinity, which parse_filter sees to.
abbrev pub AllBounded : List Filter → Type 0
AllBounded [] = Unit
AllBounded (f ∷ fs) = (f.action.add_metric ≤ infinity) × AllBounded fs

-- A result that is from 0 to INFINITY.
abbrev pub IsMetric : ℤ → Type 0
IsMetric (pos n) = n ≤ infinity
IsMetric (negsuc n) = ⊥

do_filter-IsMetric :
    (fs : List Filter) (q : Query) (default : ℕ)
    → AllBounded fs
    → default ≤ infinity
    → IsMetric (unless_negative (do_filter fs q).0 (pos default))
unfolding do_filter
do_filter-IsMetric [] q default h d = d
do_filter-IsMetric (f ∷ fs) q default (b, h) d = elim (Bool-cases (filter_match f q)) [
  | inl e ↦ rw e (ground arith)
  | inr e ↦ rw e (do_filter-IsMetric fs q default h d)
]

-- What input_filter returns lies from 0 to INFINITY, never below.
pub input_filter-IsMetric :
    (c : Filters) (id prefix : List ℕ) (plen : ℕ) (src_prefix : List ℕ) (src_plen : ℕ)
    (neigh : List ℕ) (ifindex : ℕ)
    → AllBounded c.input_filters
    → IsMetric (input_filter c id prefix plen src_prefix src_plen neigh ifindex)
unfolding input_filter
input_filter-IsMetric c id prefix plen src_prefix src_plen neigh ifindex h =
    do_filter-IsMetric c.input_filters
      (input_query id prefix plen src_prefix src_plen neigh ifindex) 0 h (omega arith)

not_neigh :
    (f : Filter) (q : Query) → matches_neigh f.neigh q.neigh ≡ false → filter_match f q ≡ false
unfolding filter_match
not_neigh f q e = rw e (ground arith)

v6_equal_refl : (p : List ℕ) → v6_equal p p ≡ true
unfolding v6_equal
v6_equal_refl p = rw (memcmp_refl 16 p)

-- A filter with a neighbour never matches a route from that neighbour.
pub filter_match-neigh :
    (f : Filter) (q : Query) (address : List ℕ)
    → f.neigh ≡ some address
    → q.neigh ≡ some address
    → filter_match f q ≡ false
filter_match-neigh f q address e e' = not_neigh f q (rw (e, e', v6_equal_refl address))
