-- ===== src/Config/Matching.antt =====
-- configuration.c: how the filters are matched. The prefixes that a route has are never NULL; where a
-- caller passes NULL for the router-id or the neighbour, the field is `none`.
pub mod First
use rabeld.Prelude.{
  ℕ, zero, suc, ◌-◌, ◌^◌, Bool, true, false, ltb, leb, ◌==◌, ◌&&◌, ◌||◌, not, if◌then◌else◌, List,
  [], ◌∷◌, replicate, Option, some, none,
}
use rabeld.Prelude.Int.{ℤ, pos, negsuc}
use rabeld.Prelude.Bytes.{mem_eq}
use rabeld.Util.Prefix.{v4mapped, v6_equal, in_prefix}
use rabeld.Source.{infinity}
use rabeld.Config.{Family, af_unspec, af_inet, af_inet6, FilterResult, Filter, Filters}

-- The arguments of filter_match, less the filter.
pub record Query : Type 0 where
  pub id : Option (List ℕ)
  pub prefix : List ℕ
  pub plen : ℕ
  pub src_prefix : List ℕ
  pub src_plen : ℕ
  pub neigh : Option (List ℕ)
  pub ifindex : ℕ
  pub proto : ℤ

abbrev pub same_int : ℤ → ℤ → Bool
same_int (pos a) (pos b) = a == b
same_int (pos a) (negsuc b) = false
same_int (negsuc a) (pos b) = false
same_int (negsuc a) (negsuc b) = a == b

-- RTPROT_BABEL_LOCAL is -2, RTPROT_BOOT is 3.
abbrev pub babel_local : ℤ
babel_local = negsuc 1

abbrev pub boot : ℤ
boot = pos 3

abbrev pub matches_family : Family → Query → Bool
matches_family af_unspec q = true
matches_family af_inet q = leb 96 q.plen && v4mapped q.prefix
matches_family af_inet6 q = not (leb 96 q.plen && v4mapped q.prefix)

abbrev pub matches_id : Option (List ℕ) → Option (List ℕ) → Bool
matches_id none id = true
matches_id (some want) none = false
matches_id (some want) (some id) = mem_eq 8 want id

abbrev pub matches_net : Option (List ℕ) → ℕ → List ℕ → ℕ → Bool
matches_net none want_plen prefix plen = true
matches_net (some want) want_plen prefix plen =
    leb want_plen plen && in_prefix prefix want want_plen

-- Only limits that exclude something are looked at.
abbrev pub matches_length : ℕ → ℕ → ℕ → Bool
matches_length ge le plen = not (ltb 0 ge || ltb le 128) || (leb plen le && leb ge plen)

-- The neighbour's address must differ from the one of the filter.
abbrev pub matches_neigh : Option (List ℕ) → Option (List ℕ) → Bool
matches_neigh none neigh = true
matches_neigh (some want) none = false
matches_neigh (some want) (some neigh) = not (v6_equal want neigh)

abbrev pub matches_interface : Option (List ℕ) → ℕ → ℕ → Bool
matches_interface none want ifindex = true
matches_interface (some name) want ifindex =
    not (want == 0) && (not (ifindex == 0) && want == ifindex)

-- On Linux. A filter that names no protocol passes over local addresses and boot routes.
abbrev pub matches_proto : ℤ → ℤ → Bool
matches_proto want proto =
    if not (same_int want (pos 0))
    then not (same_int proto (pos 0)) && same_int want proto
    else not (same_int proto babel_local) && not (same_int proto boot)

unfoldable pub filter_match : Filter → Query → Bool
filter_match f q =
    matches_family f.af q
    && (matches_id f.id q.id
        && (matches_net f.prefix f.plen q.prefix q.plen
            && (matches_net f.src_prefix f.src_plen q.src_prefix q.src_plen
                && (matches_length f.plen_ge f.plen_le q.plen
                    && (matches_length f.src_plen_ge f.src_plen_le q.src_plen
                        && (matches_neigh f.neigh q.neigh
                            && (matches_interface f.ifname f.ifindex q.ifindex
                                && matches_proto f.proto q.proto)))))))

abbrev pub no_result : FilterResult
no_result = record { src_prefix = none; add_metric = 0; table = 0; src_plen = 0 }

-- An unsigned int that is returned as an int.
abbrev pub to_int : ℕ → ℤ
to_int n = if ltb n (2 ^ 31) then pos n else negsuc (2 ^ 32 - 1 - n)

-- What is returned, and what is written through `result`.
unfoldable pub do_filter : List Filter → Query → ℤ × FilterResult
do_filter [] q = (negsuc 0, no_result)
do_filter (f ∷ fs) q =
    if filter_match f q then (to_int f.action.add_metric, f.action) else do_filter fs q

abbrev pub unless_negative : ℤ → ℤ → ℤ
unless_negative (pos n) default = pos n
unless_negative (negsuc n) default = default

abbrev pub input_query : List ℕ → List ℕ → ℕ → List ℕ → ℕ → List ℕ → ℕ → Query
input_query id prefix plen src_prefix src_plen neigh ifindex = record {
  id = some id;
  prefix = prefix;
  plen = plen;
  src_prefix = src_prefix;
  src_plen = src_plen;
  neigh = some neigh;
  ifindex = ifindex;
  proto = pos 0;
}

unfoldable pub input_filter : Filters → List ℕ → List ℕ → ℕ → List ℕ → ℕ → List ℕ → ℕ → ℤ
input_filter c id prefix plen src_prefix src_plen neigh ifindex =
    unless_negative
      (do_filter c.input_filters (input_query id prefix plen src_prefix src_plen neigh ifindex)).0
      (pos 0)

unfoldable pub output_filter : Filters → List ℕ → List ℕ → ℕ → List ℕ → ℕ → ℕ → ℤ
output_filter c id prefix plen src_prefix src_plen ifindex =
    unless_negative
      (do_filter c.output_filters (record {
        id = some id;
        prefix = prefix;
        plen = plen;
        src_prefix = src_prefix;
        src_plen = src_plen;
        neigh = none;
        ifindex = ifindex;
        proto = pos 0;
      })).0
      (pos 0)

abbrev pub route_query : List ℕ → ℕ → List ℕ → ℕ → ℕ → ℤ → Query
route_query prefix plen src_prefix src_plen ifindex proto = record {
  id = none;
  prefix = prefix;
  plen = plen;
  src_prefix = src_prefix;
  src_plen = src_plen;
  neigh = none;
  ifindex = ifindex;
  proto = proto;
}

-- A negative result is replaced.
abbrev pub with_default : ℤ × FilterResult → ℤ → ℤ × FilterResult
with_default (res, result) default = (unless_negative res default, result)

unfoldable pub redistribute_filter : Filters → List ℕ → ℕ → List ℕ → ℕ → ℕ → ℤ → ℤ × FilterResult
redistribute_filter c prefix plen src_prefix src_plen ifindex proto =
    with_default
      (do_filter c.redistribute_filters (route_query prefix plen src_prefix src_plen ifindex proto))
      (pos infinity)

unfoldable pub install_filter : Filters → List ℕ → ℕ → List ℕ → ℕ → ℤ × FilterResult
install_filter c prefix plen src_prefix src_plen =
    with_default
      (do_filter c.install_filters (route_query prefix plen src_prefix src_plen 0 (pos 0)))
      (pos infinity)

-- The new filter comes last.
unfoldable pub add_filter : Filter → List Filter → List Filter
add_filter f [] = f ∷ []
add_filter f (g ∷ fs) = g ∷ add_filter f fs

-- What calloc gives, with the two limits set.
abbrev pub blank_filter : Filter
blank_filter = record {
  ifname = none;
  af = af_unspec;
  ifindex = 0;
  id = none;
  prefix = none;
  src_prefix = none;
  plen = 0;
  plen_ge = 0;
  plen_le = 128;
  src_plen = 0;
  src_plen_ge = 0;
  src_plen_le = 128;
  proto = pos 0;
  neigh = none;
  action = no_result;
}

-- The filter that finalise_config adds behind those of the configuration: the part of it that
-- concerns the filters.
unfoldable pub finalise_filters : Filters → Filters
unfolding add_filter
finalise_filters c = record c {
  redistribute_filters =
      add_filter (record blank_filter { proto = babel_local }) c.redistribute_filters;
}

abbrev renumber_one : (List ℕ → ℕ) → Filter → Filter
renumber_one if_nametoindex f = elim (f.ifname) [
  | none ↦ f
  | some name ↦ record f { ifindex = if_nametoindex name }
]

unfoldable pub renumber_filter : (List ℕ → ℕ) → List Filter → List Filter
renumber_filter if_nametoindex [] = []
renumber_filter if_nametoindex (f ∷ fs) =
    renumber_one if_nametoindex f ∷ renumber_filter if_nametoindex fs

-- `if_nametoindex` is the system's.
unfoldable pub renumber_filters : (List ℕ → ℕ) → Filters → Filters
unfolding renumber_filter
renumber_filters if_nametoindex c = record {
  input_filters = renumber_filter if_nametoindex c.input_filters;
  output_filters = renumber_filter if_nametoindex c.output_filters;
  redistribute_filters = renumber_filter if_nametoindex c.redistribute_filters;
  install_filters = renumber_filter if_nametoindex c.install_filters;
}
