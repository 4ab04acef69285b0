-- ===== src/Route/Kernel.antt =====
-- disambiguation.c: which routes the kernel is given, where it does not choose the most specific source
-- prefix by itself. Of two routes that conflict, the kernel gets the better one for their intersection.
-- The installed routes are an argument, in the order of route_stream, each with its source; that
-- route_stream finds memory is assumed. A route's neighbour gives the index of its interface.
pub mod Calls
pub mod Spares
pub mod Undo
use rabeld.Prelude.{
  ℕ, zero, suc, Bool, true, false, ltb, leb, ◌==◌, ◌&&◌, ◌||◌, not, if◌then◌else◌, List, [], ◌∷◌,
  ◌++◌, Option, some, none, Ordering,
}
use rabeld.Prelude.Bytes.{is_eq, is_lt}
use rabeld.Util.Prefix.{
  PrefixStatus, equals, disjoint, more_specific, less_specific, prefix_cmp, v4mapped, v6_equal,
}
use rabeld.Source.{Source}
use rabeld.Resend.{Destination}
use rabeld.Route.{BabelRoute}
use rabeld.Route.Metric.{route_metric}
use rabeld.Route.Table.{destination}

-- A route, with the destination that its source has.
pub record Placed : Type 0 where
  pub route : BabelRoute
  pub to : Destination

-- struct zone has the fields of a destination.
abbrev pub dst_status : Destination → Destination → PrefixStatus
dst_status a b = prefix_cmp a.prefix a.plen b.prefix b.plen

abbrev pub src_status : Destination → Destination → PrefixStatus
src_status a b = prefix_cmp a.src_prefix a.src_plen b.src_prefix b.src_plen

abbrev pub by_specific : PrefixStatus → Ordering → Ordering
by_specific more_specific later = Ordering.lt
by_specific less_specific later = Ordering.gt
by_specific equals later = later
by_specific disjoint later = later

-- Negative for the more specific route.
unfoldable pub rt_cmp : Destination → Destination → Ordering
rt_cmp a b = by_specific (dst_status a b) (by_specific (src_status a b) Ordering.eq)

abbrev pub not_gt : Ordering → Bool
not_gt Ordering.lt = true
not_gt Ordering.eq = true
not_gt Ordering.gt = false

-- `none` is NULL.
unfoldable pub min_route : Option Placed → Option Placed → Option Placed
unfolding rt_cmp
min_route none r2 = r2
min_route (some r1) none = some r1
min_route (some r1) (some r2) = if not_gt (rt_cmp r1.to r2.to) then some r1 else some r2

abbrev pub crosses : PrefixStatus → PrefixStatus → Bool
crosses less_specific more_specific = true
crosses more_specific less_specific = true
crosses _ _ = false

unfoldable pub conflicts : Destination → Destination → Bool
conflicts a b = crosses (dst_status a b) (src_status a b)

abbrev pub is_disjoint : PrefixStatus → Bool
is_disjoint disjoint = true
is_disjoint equals = false
is_disjoint more_specific = false
is_disjoint less_specific = false

-- Whether the first of two prefixes is the intersection.
abbrev pub first_is_smaller : PrefixStatus → Bool
first_is_smaller more_specific = true
first_is_smaller equals = true
first_is_smaller disjoint = false
first_is_smaller less_specific = false

-- The intersection of two prefixes that are not disjoint, each way.
abbrev pub inter_of : PrefixStatus → PrefixStatus → Destination → Destination → Destination
inter_of dst src a b = record {
  prefix = if first_is_smaller dst then a.prefix else b.prefix;
  plen = if first_is_smaller dst then a.plen else b.plen;
  src_prefix = if first_is_smaller src then a.src_prefix else b.src_prefix;
  src_plen = if first_is_smaller src then a.src_plen else b.src_plen;
}

unfoldable pub inter : Destination → Destination → Option Destination
inter a b =
    if is_disjoint (dst_status a b) || is_disjoint (src_status a b)
    then none
    else some (inter_of (dst_status a b) (src_status a b) a b)

unfoldable pub zone_equal : Option Destination → Option Destination → Bool
zone_equal none z = false
zone_equal (some a) none = false
zone_equal (some a) (some b) =
    a.plen == b.plen
    && (v6_equal a.prefix b.prefix
        && (a.src_plen == b.src_plen && v6_equal a.src_prefix b.src_prefix))

abbrev pub is_source_specific : Placed → Bool
is_source_specific r = not (r.to.src_plen == 0)

-- The loop of min_conflict, with its variable `min`. `installed` is what is left of the stream.
unfoldable pub min_conflict_from :
    Option Destination → Destination → List Placed → Option Placed → Option Placed
unfolding min_route
min_conflict_from want rt [] min = min
min_conflict_from want rt (rt1 ∷ installed) min = min_conflict_from want rt installed (
    if conflicts rt rt1.to && zone_equal (inter rt rt1.to) want
    then min_route (some rt1) min
    else min)

unfoldable pub min_conflict : Option Destination → Destination → List Placed → Option Placed
unfolding min_conflict_from
min_conflict want rt installed = min_conflict_from want rt installed none

-- The inner loop of conflict_solution.
unfoldable pub solution_from : Destination → Placed → List Placed → Option Placed → Option Placed
unfolding min_route
solution_from rt rt1 [] min = min
solution_from rt rt1 (rt2 ∷ installed) min = solution_from rt rt1 installed (
    if conflicts rt1.to rt2.to
      && (zone_equal (inter rt1.to rt2.to) (some rt) && is_lt (rt_cmp rt1.to rt2.to))
    then min_route (some rt1) min
    else min)

-- The outer loop: the stream of the source-specific routes, which come first, ends at another route.
unfoldable pub solutions_from :
    Destination → List Placed → List Placed → Option Placed → Option Placed
unfolding solution_from
solutions_from rt installed [] min = min
solutions_from rt installed (rt1 ∷ stream1) min =
    let rest : Option Placed =
      solutions_from rt installed stream1 (solution_from rt rt1 installed min) in
    if is_source_specific rt1 then rest else min

unfoldable pub conflict_solution : Destination → List Placed → Option Placed
unfolding solutions_from
conflict_solution rt installed = solutions_from rt installed installed none

-- is_installed, of the zone that inter fills in.
abbrev pub any_at : Option Destination → List Placed → Bool
any_at want [] = false
any_at want (r ∷ rs) = zone_equal (some r.to) want || any_at want rs
