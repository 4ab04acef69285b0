-- ===== src/Xroute/Check.antt =====
-- xroute.c: check_xroutes, which brings the redistributed routes in line with the kernel's routes and
-- addresses. What kernel_dump reports is an argument. The kernel's metrics are not negative.
pub mod Exported
pub mod Offered
pub mod Local
pub mod Routes
use rabeld.Prelude.{
  ℕ, zero, suc, ◌+◌, ◌-◌, ◌*◌, ◌%◌, ◌^◌, Bool, true, false, ltb, leb, ◌==◌, ◌&&◌, ◌||◌, not,
  bool_eq, if◌then◌else◌, min, bit_and, List, [], ◌∷◌, ◌++◌, map, take, replicate, get_or, length,
  Option, some, none,
}
use rabeld.Prelude.Int.{ℤ, pos, pos_part}
use rabeld.Util.Prefix.{v6_equal, martian_prefix, zeroes}
use rabeld.Source.{Source, infinity}
use rabeld.Resend.{Destination}
use rabeld.Config.{Filters, FilterResult}
use rabeld.Config.Matching.{redistribute_filter}
use rabeld.Xroute.{
  Xroute, XrouteTable, blank, flush_xroute, add_xroute, Added, not_better, added, no_memory, Notice,
}

-- struct kernel_route
pub record KernelRoute : Type 0 where
  pub to : Destination
  pub proto : ℕ
  pub gw : List ℕ
  pub metric : ℕ
  pub ifindex : ℕ

pub record KernelAddr : Type 0 where
  pub addr : List ℕ
  pub ifindex : ℕ

-- filter_route, called for each route of a dump, with the room that is left.
unfoldable pub kernel_routes : ℕ → List KernelRoute → List KernelRoute
kernel_routes room [] = []
kernel_routes room (r ∷ rs) =
    let skipped : List KernelRoute = kernel_routes room rs in
    let taken : List KernelRoute = r ∷ kernel_routes (room - 1) rs in
    if room == 0
    then []
    else (if martian_prefix r.to.prefix r.to.plen || martian_prefix r.to.src_prefix r.to.src_plen
        then skipped
        else taken)

-- IN6_IS_ADDR_LINKLOCAL
abbrev pub is_linklocal : List ℕ → Bool
is_linklocal a = get_or a 0 0 == 0xFE && bit_and (get_or a 1 0) 0xC0 == 0x80

-- RTPROT_BABEL_LOCAL in an unsigned char.
abbrev pub local_proto : ℕ
local_proto = 254

-- The route that filter_address makes of an address; the other fields are as calloc left them.
abbrev pub route_of_address : KernelAddr → KernelRoute
route_of_address a = record {
  to = record { prefix = take 16 a.addr; plen = 128; src_prefix = zeroes; src_plen = 0 };
  proto = local_proto;
  gw = zeroes;
  metric = 0;
  ifindex = a.ifindex;
}

-- filter_address, called for each address of a dump; ifindex 0 is for all interfaces, and `ll` for
-- the link-local addresses.
unfoldable pub kernel_addresses : ℕ → Bool → ℕ → List KernelAddr → List KernelRoute
kernel_addresses ifindex ll room [] = []
kernel_addresses ifindex ll room (a ∷ as') =
    let skipped : List KernelRoute = kernel_addresses ifindex ll room as' in
    let taken : List KernelRoute =
      route_of_address a ∷ kernel_addresses ifindex ll (room - 1) as' in
    if room == 0
    then []
    else (if not (bool_eq ll (is_linklocal a.addr))
          || not (ifindex == 0) && not (a.ifindex == ifindex)
        then skipped
        else taken)

abbrev pub maxmaxroutes : ℕ
maxmaxroutes = 16 * 1024

-- The addresses and routes that are found, each time with more room: `none` is the return of -1. The
-- kernel's tables stay the same meanwhile, and calloc finds memory. Each round makes `maxroutes`
-- larger, so that 16 * 1024 rounds are enough.
unfoldable pub gather :
    ℕ → ℕ → List KernelAddr → List KernelRoute → Option (List KernelRoute × List KernelRoute)
unfolding kernel_routes kernel_addresses
gather zero maxroutes addrs dump = none
gather (suc rounds) maxroutes addrs dump =
    let addresses : List KernelRoute = kernel_addresses 0 false maxroutes addrs in
    let routes : List KernelRoute = kernel_routes (maxroutes - length addresses) dump in
    let resized : Option (List KernelRoute × List KernelRoute) =
      gather rounds (min maxmaxroutes (4 * maxroutes)) addrs dump in
    if leb maxroutes (length addresses + length routes)
    then (if leb maxmaxroutes maxroutes then none else resized)
    else some (addresses, routes)

abbrev pub redistributed : Filters → Destination → ℕ → ℕ → ℤ × FilterResult
redistributed c d ifindex proto =
    redistribute_filter c d.prefix d.plen d.src_prefix d.src_plen ifindex (pos proto)

abbrev pub with_src_prefix : FilterResult → Destination → Destination
with_src_prefix f d = elim (f.src_prefix) [
  | none ↦ d
  | some p ↦ record d { src_prefix = take 16 p; src_plen = f.src_plen }
]

-- The filter may change the source prefix of a route.
unfoldable pub apply_filter : Filters → List KernelRoute → List KernelRoute
apply_filter c [] = []
apply_filter c (r ∷ rs) =
    (record r { to = with_src_prefix (redistributed c r.to r.ifindex r.proto).1 r.to })
    ∷ apply_filter c rs

-- The metric that the filter gives, `none` if it is not below INFINITY.
abbrev pub finite : ℤ × FilterResult → Option ℕ
finite (res, result) = if ltb (pos_part res) infinity then some (pos_part res) else none

abbrev pub is_behind : Xroute → KernelRoute → Bool
is_behind x r =
    x.to.plen == r.to.plen
    && (v6_equal x.to.prefix r.to.prefix && (x.ifindex == r.ifindex && x.proto == r.proto))

abbrev pub any_behind : Xroute → List KernelRoute → Bool
any_behind x [] = false
any_behind x (r ∷ rs) = is_behind x r || any_behind x rs

abbrev pub same_metric : Option ℕ → ℕ → Bool
same_metric none metric = false
same_metric (some m) metric = m == metric

-- `export`: the source prefix is not compared.
unfoldable pub is_exported : Filters → List KernelRoute → Xroute → Bool
is_exported c routes x =
    same_metric (finite (redistributed c x.to x.ifindex x.proto)) x.metric && any_behind x routes

-- The first loop, from index i on: the array, the destinations that have been flushed and the calls of
-- the local interface. flush_xroute moves the last element to i, so that each round makes the rest
-- shorter. `none` is a failed assertion.
unfoldable pub flush_loop :
    ℕ
    → Bool
    → Filters
    → List KernelRoute
    → ℕ
    → XrouteTable
    → Option (XrouteTable × List Destination)
flush_loop zero realloc c routes i t = some (t, [])
flush_loop (suc rounds) realloc c routes i t =
    let x : Xroute = get_or t.xroutes i blank in
    let onward : Option (XrouteTable × List Destination) =
      flush_loop rounds realloc c routes (i + 1) t in
    if leb (length t.xroutes) i
    then some (t, [])
    else (if is_exported c routes x then onward else elim (flush_xroute realloc i t) [
      | none ↦ none
      | some (t', notices) ↦ elim (flush_loop rounds realloc c routes i t') [
        | none ↦ none
        | some (t'', flushed) ↦ some (t'', x.to ∷ flushed)
      ]
    ])

abbrev pub is_added : Added → Bool
is_added not_better = false
is_added added = true
is_added no_memory = false

abbrev pub note_added :
    KernelRoute
    → XrouteTable × Added × List Notice
    → XrouteTable × List KernelRoute
    → XrouteTable × List KernelRoute
note_added r (t', result, notices) (t'', later) =
    (t'', if is_added result then r ∷ later else later)

-- The array after a route of the second loop.
abbrev pub offered :
    Bool → Filters → KernelRoute → XrouteTable → Option (XrouteTable × Added × List Notice)
offered realloc c r t =
    if martian_prefix r.to.prefix r.to.plen
    then none
    else elim (finite (redistributed c r.to r.ifindex r.proto)) [
      | none ↦ none
      | some metric ↦ some (add_xroute realloc r.to metric r.ifindex r.proto t)
    ]

-- The second loop: the array, and the routes for which add_xroute returns a positive number.
unfoldable pub add_loop :
    Bool → Filters → List KernelRoute → XrouteTable → XrouteTable × List KernelRoute
add_loop realloc c [] t = (t, [])
add_loop realloc c (r ∷ rs) t = elim (offered realloc c r t) [
  | none ↦ add_loop realloc c rs t
  | some (t', result, notices) ↦ note_added r (t', result, notices) (add_loop realloc c rs t')
]

-- What check_xroutes does with the array; `change` is whether either list is not empty.
pub record Checked : Type 0 where
  pub table : XrouteTable
  pub flushed : List Destination
  pub added_routes : List KernelRoute

unfoldable pub check_table : Bool → Filters → List KernelRoute → XrouteTable → Option Checked
unfolding flush_loop add_loop
check_table realloc c routes t = elim (flush_loop (length t.xroutes) realloc c routes 0 t) [
  | none ↦ none
  | some (t', flushed) ↦
      let (t'', later) = add_loop realloc c routes t' in
      some (record { table = t''; flushed = flushed; added_routes = later })
]

-- All the routes: the addresses first. The first `none` is the return of -1.
unfoldable pub found_routes :
    Filters → ℕ → List KernelAddr → List KernelRoute → Option (List KernelRoute)
unfolding gather apply_filter
found_routes c maxroutes addrs dump = elim (gather (suc maxmaxroutes) maxroutes addrs dump) [
  | none ↦ none
  | some (addresses, routes) ↦ some (addresses ++ apply_filter c routes)
]
