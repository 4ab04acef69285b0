-- ===== src/Route/Receive.antt =====
-- route.c: update_route, which is called for every update that a neighbour sends.
pub mod Unfeasible
pub mod Unknown
use rabeld.Prelude.{
  ℕ, zero, suc, ◌+◌, ◌*◌, ◌/◌, ◌%◌, ◌^◌, Bool, true, false, ltb, leb, ◌==◌, ◌&&◌, ◌||◌, not,
  bool_eq, if◌then◌else◌, min, max, List, [], ◌∷◌, ◌++◌, map, take, get_or, length, Option, some,
  none,
}
use rabeld.Prelude.Int.{pos_part}
use rabeld.Prelude.Bytes.{mem_eq}
use rabeld.Util.Prefix.{martian_prefix, v4mapped}
use rabeld.Slots.{found, absent, insert_at}
use rabeld.Source.{
  Source, SourceTable, Memory, infinity, blank, find_source_slot, create_source, new_source,
  retain_source, release_source,
}
use rabeld.Message.Parse.{Update}
use rabeld.Config.Matching.{input_filter}
use rabeld.Route.{BabelRoute}
use rabeld.Route.Feasible.{update_feasible}
use rabeld.Route.Metric.{route_metric, route_old}
use rabeld.Route.Table.{
  RouteTable, destination, find_route, find_installed_route, uninstall_route, insert_route,
  notify_add,
}
use rabeld.Route.Announce.{Message, send_unfeasible_request}
use rabeld.Route.Consider.{Setting, Effect, kernel, announce, store, load, consider_route}
use rabeld.Route.Change.{route_changed, route_lost}
use rabeld.Route.Update.{
  Node, Replies, Through, change_route_metric, write_source, and_then, After, released,
}

-- The sources where they stand, and the array of source.c, of their addresses.
pub record SourceHeap : Type 0 where
  pub cells : ℕ → Source
  pub slots : List ℕ
  pub max_source_slots : ℕ

abbrev pub as_table : SourceHeap → SourceTable
as_table h = record { sources = map h.cells h.slots; max_source_slots = h.max_source_slots }

abbrev pub made : SourceHeap → ℕ → ℕ → Source → SourceTable × Option ℕ → SourceHeap × Option ℕ
made h fresh n src (t, none) = (record h { max_source_slots = t.max_source_slots }, none)
made h fresh n src (t, some i) = (
  record {
    cells = write_source h.cells fresh src;
    slots = insert_at n fresh h.slots;
    max_source_slots = t.max_source_slots;
  },
  some fresh,
)

-- find_source with `create`, on the heap; calloc gives the address `fresh`.
unfoldable pub find_source_at :
    Memory → ℕ → ℕ → List ℕ → List ℕ → ℕ → List ℕ → ℕ → ℕ → SourceHeap → SourceHeap × Option ℕ
find_source_at memory fresh now id prefix plen src_prefix src_plen seqno h =
    elim (find_source_slot id prefix plen src_prefix src_plen (as_table h)) [
      | found i ↦ (h, some (get_or h.slots i 0))
      | absent n ↦
          let src : Source = new_source id prefix plen src_prefix src_plen seqno now in
          made h fresh n src (create_source memory n src (as_table h))
    ]

-- What comes with an update: the neighbour, the bytes of the channels (those of an uninitialised
-- buffer where the parser leaves it so), and what the system grants: memory and the addresses of a
-- new source and a new route.
pub record Arrival : Type 0 where
  pub update : Update
  pub neigh : ℕ
  pub channels : List ℕ
  pub memory : Memory
  pub fresh_source : ℕ
  pub fresh_route : ℕ

-- `route` is the address that is returned, `none` for NULL.
pub record Received : Type 0 where
  pub heap : SourceHeap
  pub table : RouteTable
  pub effects : List Effect
  pub route : Option ℕ

abbrev pub hold_time : ℕ → ℕ
hold_time interval = max (4 * interval / 100 + interval / 50) 15 % 2 ^ 16

abbrev pub node_filter : Node → Arrival → ℕ
node_filter n a = pos_part (
    input_filter n.filters a.update.id a.update.prefix a.update.plen a.update.src_prefix
      a.update.src_plen (n.through a.neigh).address (n.through a.neigh).ifindex)

-- The early returns, up to the filter.
unfoldable pub is_rejected : Node → Arrival → Bool
is_rejected n a =
    mem_eq 8 a.update.id n.myid
    || (martian_prefix a.update.prefix a.update.plen
        || (not (a.update.src_plen == 0)
              && (martian_prefix a.update.src_prefix a.update.src_plen
                  || not (bool_eq (v4mapped a.update.prefix) (v4mapped a.update.src_prefix)))
            || leb infinity (node_filter n a)))

-- The channels after the update; where realloc fails the old length is kept.
abbrev pub new_channels : Arrival → BabelRoute → List ℕ
new_channels a route =
    if length a.channels == length route.channels || a.memory.realloc
    then a.channels
    else take (length route.channels) a.channels

-- The route once the assignments from `route->src` to `route->hold_time` are made. `route` is not
-- installed any more if it was uninstalled before.
unfoldable pub take_update :
    Node → Replies → Arrival → Bool → ℕ → BabelRoute → BabelRoute × List Effect
take_update n replies a feasible src route =
    let u : Update = a.update in
    let fresh : Bool = (feasible || n.keep_unfeasible) && ltb u.metric infinity in
    let route' : BabelRoute = record route {
      src = src;
      time = if fresh then n.setting.smoothing.now else route.time;
      seqno = u.seqno;
      channels = new_channels a route;
    } in
    let (route'', asked) =
      change_route_metric n replies.change_ok route' u.metric (n.through a.neigh).cost
        (node_filter n a) in
    (record route'' { hold_time = hold_time u.interval }, asked)

-- Whether the route is uninstalled, since an unfeasible update makes it another source's.
abbrev pub is_switched : Bool → ℕ → BabelRoute → Bool
is_switched feasible src route = not feasible && (route.installed && not (route.src == src))

-- The metric that the update gives.
abbrev pub new_metric : Node → Arrival → ℕ
new_metric n a = min (a.update.metric + (n.through a.neigh).cost + node_filter n a) infinity

abbrev pub request_for : Node → Arrival → Bool → ℕ → (ℕ → Source) → RouteTable → List Effect
request_for n a force src sources t = map announce (
    send_unfeasible_request a.neigh force a.update.seqno (new_metric n a) (sources src)
      (find_installed_route sources (destination (sources src)) t))

-- The steps behind route_changed: route_lost, if the route was uninstalled, and the request.
abbrev after_change :
    Node
    → Replies
    → Arrival
    → Bool
    → Bool
    → ℕ
    → BabelRoute
    → BabelRoute
    → Option (RouteTable × List Effect)
    → Option (RouteTable × List Effect)
after_change n replies a feasible lost src old route none = none
after_change n replies a feasible lost src old route (some (t, effects)) =
    let s : Setting = n.setting in
    elim (if lost
      then and_then effects (route_lost s replies.lost_ok (s.sources old.src) (route_metric old) t)
      else some (t, effects)) [
        | none ↦ none
        | some (t', effects') ↦
            let now_it_is : BabelRoute = load s.sources route t' in
            some (
              t',
              effects'
                  ++ (if feasible
                      then []
                      else request_for n a
                          (now_it_is.installed && route_old s.smoothing.now now_it_is) src s.sources
                          t'),
            )
      ]

abbrev pub with_sources : Node → (ℕ → Source) → Node
with_sources n sources = record n { setting = record n.setting { sources = sources } }

-- The first half of what is done with a route that is known: it is uninstalled if it gets another
-- source and is not feasible, and its fields are set. The result stands in the table.
unfoldable pub take_over :
    Node
    → Replies
    → Arrival
    → Bool
    → ℕ
    → BabelRoute
    → RouteTable
    → BabelRoute × RouteTable × List Effect
unfolding take_update
take_over n replies a feasible src route t =
    let s : Setting = n.setting in
    let lost : Bool = is_switched feasible src route in
    let (t', events) = if lost then uninstall_route s.sources route t else (t, []) in
    let off : BabelRoute = if lost then (record route { installed = false }) else route in
    let (route', asked) = take_update n replies a feasible src off in
    (route', store s.sources route' t', map kernel events ++ asked)

-- The update of a route that is known. The sources of the node are those after retain_source.
unfoldable pub update_known :
    Node
    → Replies
    → Arrival
    → Bool
    → ℕ
    → BabelRoute
    → RouteTable
    → Option (RouteTable × List Effect)
unfolding take_over
update_known n replies a feasible src route t =
    let (route', t', effects) = take_over n replies a feasible src route t in
    after_change n replies a feasible (is_switched feasible src route) src route route' (
      and_then effects (
        route_changed n.setting replies.better_ok replies.considered_ok route' route.src
          (route_metric route) t'))

-- What calloc and the assignments make. `channels_len` is not set, so that there are no channels.
unfoldable pub new_route : Node → Arrival → ℕ → BabelRoute
new_route n a src =
    let route : BabelRoute = record {
      handle = a.fresh_route;
      src = src;
      refmetric = a.update.metric;
      cost = (n.through a.neigh).cost % 2 ^ 16;
      add_metric = node_filter n a % 2 ^ 16;
      seqno = a.update.seqno;
      neigh = a.neigh;
      nexthop = take 16 a.update.nexthop;
      time = n.setting.smoothing.now;
      hold_time = hold_time a.update.interval;
      smoothed_metric = 0;
      smoothed_metric_time = n.setting.smoothing.now;
      installed = false;
      channels = [];
    } in
    record route { smoothed_metric = max (route_metric route) (infinity / 2) }

abbrev pub inserted :
    Node → Replies → BabelRoute → RouteTable × Bool → Option (RouteTable × List Effect)
inserted n replies route (t, false) = some (t, [])
inserted n replies route (t, true) =
    and_then (kernel (notify_add route.handle) ∷ [])
      (consider_route n.setting replies.considered_ok route t)

-- A route that is put in, with the sources after retain_source.
unfoldable pub add_route :
    Node → Replies → Arrival → ℕ → RouteTable → Option (RouteTable × List Effect)
unfolding new_route
add_route n replies a src t =
    let route : BabelRoute = new_route n a src in
    inserted n replies route (insert_route n.setting.sources a.memory.realloc route t)

abbrev pub received :
    SourceHeap → (ℕ → Source) → Option ℕ → Option (RouteTable × List Effect) → Option Received
received h sources route none = none
received h sources route (some (t, effects)) =
    some
      (record { heap = record h { cells = sources }; table = t; effects = effects; route = route })

abbrev received_after : SourceHeap → Option ℕ → Option After → Option Received
received_after h route none = none
received_after h route (some r) = received h r.sources route (some (r.table, r.effects))

-- The branch for a route that is known; `src` is the address of the update's source.
unfoldable pub receive_known :
    Node → Replies → Arrival → Bool → ℕ → BabelRoute → SourceHeap → RouteTable → Option Received
unfolding update_known
receive_known n replies a feasible src route h t = elim (retain_source (h.cells src)) [
  | none ↦ none
  | some kept ↦
      let sources : ℕ → Source = write_source h.cells src kept in
      received_after h (some route.handle) (
        released route.src sources
          (update_known (with_sources n sources) replies a feasible src route t))
]

-- From retain_source on, with what it returns.
abbrev pub put_in :
    Node
    → Replies
    → Arrival
    → ℕ
    → SourceHeap
    → RouteTable
    → List Effect
    → Option Source
    → Option Received
put_in n replies a src h t request none = none
put_in n replies a src h t request (some kept) =
    let sources : ℕ → Source = write_source h.cells src kept in
    received h sources
      (if (insert_route sources a.memory.realloc (new_route n a src) t).1
        then some a.fresh_route
        else none)
      (and_then request (add_route (with_sources n sources) replies a src t))

abbrev pub request_if : Node → Arrival → Bool → ℕ → SourceHeap → RouteTable → List Effect
request_if n a feasible src h t = if feasible then [] else request_for n a false src h.cells t

-- The branch for one that is not.
unfoldable pub receive_unknown :
    Node → Replies → Arrival → Bool → ℕ → SourceHeap → RouteTable → Option Received
unfolding add_route
receive_unknown n replies a feasible src h t =
    let request : List Effect = request_if n a feasible src h t in
    if leb infinity a.update.metric
    then received h h.cells none (some (t, []))
    else (if not feasible && not n.keep_unfeasible || not a.memory.calloc
        then received h h.cells none (some (t, request))
        else put_in n replies a src h t request (retain_source (h.cells src)))

-- find_source is only called where the route's source is another router's.
abbrev source_for : Node → Arrival → Option BabelRoute → SourceHeap → SourceHeap × Option ℕ
source_for n a none h =
    find_source_at a.memory a.fresh_source n.setting.smoothing.now a.update.id a.update.prefix
      a.update.plen a.update.src_prefix a.update.src_plen a.update.seqno h
source_for n a (some route) h =
    if mem_eq 8 (h.cells route.src).id a.update.id
    then (h, some route.src)
    else find_source_at a.memory a.fresh_source n.setting.smoothing.now a.update.id a.update.prefix
        a.update.plen a.update.src_prefix a.update.src_plen a.update.seqno h

abbrev feasible_at : Node → Arrival → SourceHeap → ℕ → Bool
feasible_at n a h src =
    update_feasible n.setting.smoothing.now (some (h.cells src)) a.update.seqno a.update.metric

abbrev receive :
    Node
    → Replies
    → Arrival
    → RouteTable
    → Option BabelRoute
    → SourceHeap × Option ℕ
    → Option Received
receive n replies a t route (h, none) = received h h.cells none (some (t, []))
receive n replies a t none (h, some src) =
    receive_unknown n replies a (feasible_at n a h src) src h t
receive n replies a t (some route) (h, some src) =
    receive_known n replies a (feasible_at n a h src) src route h t

-- `none` is a failed assertion. The sources of the node's setting are those of the heap.
unfoldable pub update_route : Node → Replies → Arrival → SourceHeap → RouteTable → Option Received
unfolding is_rejected find_source_at receive_known receive_unknown
update_route n replies a h t =
    if is_rejected n a
    then received h h.cells none (some (t, []))
    else (let route : Option BabelRoute =
          find_route h.cells
            (record {
              prefix = a.update.prefix;
              plen = a.update.plen;
              src_prefix = a.update.src_prefix;
              src_plen = a.update.src_plen;
            })
            a.neigh a.update.nexthop t in
        receive n replies a t route (source_for n a route h))
