-- ===== src/Route/Table.antt =====
-- route.c: the table of routes, with a chain of routes for each destination. A function that is
-- called with a route is called with its record as it stands in the table.
pub mod Order
pub mod Invariant
pub mod Installed
use rabeld.Prelude.{
  ℕ, zero, suc, ◌+◌, ◌-◌, ◌*◌, ◌/◌, compare, Ordering, Bool, true, false, ltb, leb, ◌==◌, ◌&&◌,
  ◌||◌, not, if◌then◌else◌, List, [], ◌∷◌, ◌++◌, get_or, set, length, take, drop, Option, some,
  none,
}
use rabeld.Prelude.Order.{then_compare}
use rabeld.Prelude.Bytes.{memcmp}
use rabeld.Util.Prefix.{v6_equal}
use rabeld.Slots.{Slot, found, absent, find_slot, insert_at}
use rabeld.Source.{Source}
use rabeld.Resend.{Destination}
use rabeld.Route.{BabelRoute}

abbrev pub destination : Source → Destination
destination src = record {
  prefix = src.prefix;
  plen = src.plen;
  src_prefix = src.src_prefix;
  src_plen = src.src_plen;
}

-- `src` is the source of the route that is compared with.
unfoldable pub route_compare : Destination → Source → Ordering
route_compare d src =
    if d.src_plen == 0 && ltb 0 src.src_plen
    then Ordering.gt
    else (if ltb 0 d.src_plen && src.src_plen == 0
        then Ordering.lt
        else then_compare (memcmp 16 d.prefix src.prefix) (
            then_compare (compare d.plen src.plen) (
              if d.src_plen == 0
              then (if ltb 0 src.src_plen then Ordering.lt else Ordering.eq)
              else then_compare (memcmp 16 d.src_prefix src.src_prefix)
                  (compare d.src_plen src.src_plen))))

-- A slot of the table: its first route, and those that `next` leads to.
pub record Chain : Type 0 where
  pub head : BabelRoute
  pub rest : List BabelRoute

-- The static variables; `route_slots` is the length of the array.
pub record RouteTable : Type 0 where
  pub routes : List Chain
  pub max_route_slots : ℕ

abbrev pub nowhere : Chain
nowhere = record {
  head = record {
    handle = 0;
    src = 0;
    refmetric = 0;
    cost = 0;
    add_metric = 0;
    seqno = 0;
    neigh = 0;
    nexthop = [];
    time = 0;
    hold_time = 0;
    smoothed_metric = 0;
    smoothed_metric_time = 0;
    installed = false;
    channels = [];
  };
  rest = [];
}

-- The store of sources is an argument of what follows: a route's `src` is an address in it.
abbrev pub compare_slot : (ℕ → Source) → Destination → List Chain → ℕ → Ordering
compare_slot sources d routes m = route_compare d (sources (get_or routes m nowhere).head.src)

unfoldable pub find_route_slot : (ℕ → Source) → Destination → RouteTable → Slot
find_route_slot sources d t = find_slot (compare_slot sources d t.routes) (length t.routes)

abbrev pub routes_of : Chain → List BabelRoute
routes_of c = c.head ∷ c.rest

unfoldable pub find_through : ℕ → List ℕ → List BabelRoute → Option BabelRoute
find_through neigh nexthop [] = none
find_through neigh nexthop (r ∷ rest) =
    if r.neigh == neigh && v6_equal r.nexthop nexthop
    then some r
    else find_through neigh nexthop rest

unfoldable pub find_route : (ℕ → Source) → Destination → ℕ → List ℕ → RouteTable → Option BabelRoute
find_route sources d neigh nexthop t = elim (find_route_slot sources d t) [
  | absent n ↦ none
  | found i ↦ find_through neigh nexthop (routes_of (get_or t.routes i nowhere))
]

unfoldable pub find_installed_route : (ℕ → Source) → Destination → RouteTable → Option BabelRoute
find_installed_route sources d t = elim (find_route_slot sources d t) [
  | absent n ↦ none
  | found i ↦
      if (get_or t.routes i nowhere).head.installed
      then some (get_or t.routes i nowhere).head
      else none
]

unfoldable pub resize_route_table : Bool → ℕ → RouteTable → RouteTable
resize_route_table realloc new_slots t =
    if new_slots == 0 || realloc then record t { max_route_slots = new_slots } else t

-- The table, grown if it is full.
unfoldable pub make_room : Bool → RouteTable → RouteTable
make_room realloc t =
    if leb t.max_route_slots (length t.routes)
    then resize_route_table realloc (if ltb t.max_route_slots 1 then 8 else 2 * t.max_route_slots) t
    else t

-- The result tells whether the route was put in. (That the route is not installed is asserted.)
unfoldable pub insert_route : (ℕ → Source) → Bool → BabelRoute → RouteTable → RouteTable × Bool
insert_route sources realloc route t =
    elim (find_route_slot sources (destination (sources route.src)) t) [
      | absent n ↦
          let t' : RouteTable = make_room realloc t in
          if leb t'.max_route_slots (length t'.routes) then (t', false) else (
            record t' { routes = insert_at n (record { head = route; rest = [] }) t'.routes },
            true,
          )
      | found i ↦
          let c : Chain = get_or t.routes i nowhere in
          (record t { routes = set t.routes i (record c { rest = c.rest ++ route ∷ [] }) }, true)
    ]

-- The chain without the route that stands at an address.
unfoldable pub unlink_route : ℕ → List BabelRoute → List BabelRoute
unlink_route handle [] = []
unlink_route handle (r ∷ rest) = if r.handle == handle then rest else r ∷ unlink_route handle rest

-- What flush_route does when a destination has lost its last route.
unfoldable pub shrink : Bool → RouteTable → RouteTable
shrink realloc t =
    if length t.routes == 0
    then resize_route_table realloc 0 t
    else (if ltb 8 t.max_route_slots && ltb (length t.routes) (t.max_route_slots / 4)
        then resize_route_table realloc (t.max_route_slots / 2) t
        else t)

abbrev pub remove_at : ℕ → List Chain → List Chain
remove_at n xs = take n xs ++ drop (suc n) xs

-- The part of flush_route that takes the route out of the table; `none` is the failed assertion.
-- The table can be made smaller only if a head was removed, since else no slot becomes free.
unfoldable pub remove_route : (ℕ → Source) → Bool → BabelRoute → RouteTable → Option RouteTable
remove_route sources realloc route t =
    elim (find_route_slot sources (destination (sources route.src)) t) [
      | absent n ↦ none
      | found i ↦
          let c : Chain = get_or t.routes i nowhere in
          if c.head.handle == route.handle
          then some (
              shrink realloc (record t {
                routes = elim (c.rest) [
                  | [] ↦ remove_at i t.routes
                  | r ∷ rest ↦ set t.routes i (record { head = r; rest = rest })
                ];
              }))
          else some (record t {
            routes = set t.routes i (record c { rest = unlink_route route.handle c.rest });
          })
    ]

-- The chain with the route, as it is then, in front.
unfoldable pub move_installed_route : BabelRoute → Chain → Chain
move_installed_route route c =
    if c.head.handle == route.handle
    then (record c { head = route })
    else (record { head = route; rest = c.head ∷ unlink_route route.handle c.rest })

-- Calls of the kernel's and of the local interface's functions, in their order.
pub data Event : Type 0 where
  kinstall_route : ℕ → Event
  kuninstall_route : ℕ → Event
  kswitch_routes : ℕ → ℕ → Event
  notify_change : ℕ → Event
  notify_add : ℕ → Event
  notify_flush : ℕ → Event
  kchange_route_metric : ℕ → ℕ → ℕ → ℕ → Event

-- `ok` says whether kinstall_route succeeds or finds the route there; `none` is the failed
-- assertion. The warning of an unfeasible route changes nothing.
unfoldable pub install_route :
    (ℕ → Source) → Bool → BabelRoute → RouteTable → Option (RouteTable × List Event)
install_route sources ok route t =
    if route.installed
    then some (t, [])
    else elim (find_route_slot sources (destination (sources route.src)) t) [
      | absent n ↦ none
      | found i ↦
          let c : Chain = get_or t.routes i nowhere in
          if not (c.head.handle == route.handle) && c.head.installed
          then some (t, [])
          else (if not ok
              then some (t, kinstall_route route.handle ∷ [])
              else some (
                record t {
                  routes =
                      set t.routes i (move_installed_route (record route { installed = true }) c);
                },
                kinstall_route route.handle ∷ notify_change route.handle ∷ [],
              ))
    ]

-- The routes of a chain, where the one at an address is no longer installed.
unfoldable pub clear_installed : ℕ → List BabelRoute → List BabelRoute
clear_installed handle [] = []
clear_installed handle (r ∷ rest) =
    if r.handle == handle
    then (record r { installed = false }) ∷ rest
    else r ∷ clear_installed handle rest

abbrev pub clear_chain : ℕ → Chain → Chain
clear_chain handle c =
    if c.head.handle == handle
    then (record c { head = record c.head { installed = false } })
    else (record c { rest = clear_installed handle c.rest })

-- The route is changed where it stands, in the slot of its destination.
unfoldable pub uninstall_route : (ℕ → Source) → BabelRoute → RouteTable → RouteTable × List Event
uninstall_route sources route t =
    if not route.installed
    then (t, [])
    else elim (find_route_slot sources (destination (sources route.src)) t) [
      | absent n ↦ (t, [])
      | found i ↦ (
        record t { routes = set t.routes i (clear_chain route.handle (get_or t.routes i nowhere)) },
        kuninstall_route route.handle ∷ notify_change route.handle ∷ [],
      )
    ]

-- `old` is `none` for NULL. "The destination of both routes must be the same."
unfoldable pub switch_routes :
    (ℕ → Source)
    → Bool
    → Option BabelRoute
    → BabelRoute
    → RouteTable
    → Option (RouteTable × List Event)
switch_routes sources ok none new t = install_route sources ok new t
switch_routes sources ok (some old) new t =
    if not old.installed
    then some (t, [])
    else (if not ok
        then some (t, kswitch_routes old.handle new.handle ∷ [])
        else elim (find_route_slot sources (destination (sources new.src)) t) [
          | absent n ↦ none
          | found i ↦
              let c : Chain = clear_chain old.handle (get_or t.routes i nowhere) in
              some (
                record t {
                  routes =
                      set t.routes i (move_installed_route (record new { installed = true }) c);
                },
                kswitch_routes old.handle new.handle
                    ∷ notify_change old.handle
                    ∷ notify_change new.handle
                    ∷ [],
              )
        ])
