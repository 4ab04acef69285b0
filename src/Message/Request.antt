-- ===== src/Message/Request.antt =====
-- message.c: the answer to a request for a seqno, or its passing on to another neighbour.
pub mod Forward
use rabeld.Prelude.{
  ℕ, suc, ◌-◌, Bool, true, false, ltb, leb, ◌==◌, ◌&&◌, ◌||◌, not, if◌then◌else◌, List, [], ◌∷◌,
  get_or, Option, some, none,
}
use rabeld.Prelude.Int.{ℤ, pos, negsuc, ltb_ℤ}
use rabeld.Prelude.Bytes.{mem_eq, is_gt}
use rabeld.Util.Timeval.{Timeval}
use rabeld.Util.Seqno.{seqno_compare, seqno_minus, seqno_plus}
use rabeld.Source.{Source, infinity}
use rabeld.Resend.{
  Destination, Filters, Resends, Recorded, request, request_redundant, record_resend,
}
use rabeld.Route.{BabelRoute}
use rabeld.Route.Metric.{route_metric}
use rabeld.Route.Table.{RouteTable, find_installed_route}
use rabeld.Route.Select.{Smoothing, find_best_route}
use rabeld.Xroute.{Xroute, blank, find_xroute}

-- What handle_request reads of the node; `calloc` says whether there is memory.
pub record Responder : Type 0 where
  pub sources : ℕ → Source
  pub smoothing : Smoothing
  pub now : Timeval
  pub xroutes : List Xroute
  pub kernel_metric : ℕ
  pub myid : List ℕ
  pub filters : Filters
  pub calloc : Bool

-- The arguments, with the neighbour and its interface by their addresses.
pub record SeqnoRequest : Type 0 where
  pub neigh : ℕ
  pub ifp : ℕ
  pub ifindex : ℕ
  pub hello_interval : ℕ
  pub to : Destination
  pub hop_count : ℕ
  pub seqno : ℕ
  pub id : List ℕ

-- What handle_request may change.
pub record Requests : Type 0 where
  pub myseqno : ℕ
  pub seqno_time : Timeval
  pub table : RouteTable
  pub resends : Resends

-- The calls of send_update on the neighbour's interface, and of send_unicast_multihop_request with the
-- neighbour and the hop count.
pub data Reaction : Type 0 where
  answered : Reaction
  forwarded : ℕ → ℕ → Reaction

unfoldable pub update_myseqno : Timeval → Requests → Requests
update_myseqno now s = record s { myseqno = seqno_plus s.myseqno (pos 1); seqno_time = now }

-- A request for more than 100 seqnos after the given one.
abbrev pub is_hopeless : ℕ → ℕ → Bool
is_hopeless seqno from = ltb_ℤ (pos 100) (seqno_minus seqno from)

-- The node's own destination is announced.
unfoldable pub answer_own : Responder → SeqnoRequest → Requests → Requests × List Reaction
unfolding update_myseqno
answer_own n r s =
    if ltb 0 r.hop_count && (mem_eq 8 r.id n.myid && is_gt (seqno_compare r.seqno s.myseqno))
    then (if is_hopeless r.seqno s.myseqno
        then (s, [])
        else (update_myseqno n.now s, answered ∷ []))
    else (s, answered ∷ [])

abbrev pub is_announced : Responder → Option ℕ → Option BabelRoute → Bool
is_announced n none route = false
is_announced n (some i) none = true
is_announced n (some i) (some route) = leb (get_or n.xroutes i blank).metric n.kernel_metric

-- The installed route has another router-id, or a seqno that is large enough.
abbrev pub satisfies : Responder → SeqnoRequest → Option BabelRoute → Bool
satisfies n r none = false
satisfies n r (some route) =
    not (mem_eq 8 r.id (n.sources route.src).id) || not (is_gt (seqno_compare r.seqno route.seqno))

abbrev pub is_out_of_date : Responder → SeqnoRequest → Option BabelRoute → Bool
is_out_of_date n r none = false
is_out_of_date n r (some route) =
    mem_eq 8 r.id (n.sources route.src).id && is_hopeless r.seqno route.seqno

-- The neighbour of a route that is not retracted.
abbrev pub neighbour_of : Option BabelRoute → Option ℕ
neighbour_of none = none
neighbour_of (some route) = if ltb (route_metric route) infinity then some route.neigh else none

-- `!successor || successor == neigh`
abbrev pub is_useless : ℕ → Option ℕ → Bool
is_useless neigh none = true
is_useless neigh (some successor) = successor == neigh

abbrev pub or_else : Option ℕ → Option ℕ → Option ℕ
or_else none successor = successor
or_else (some other) successor = some other

-- The search may smooth the metrics of the routes that it compares.
unfoldable pub choose_successor :
    Responder → SeqnoRequest → Option BabelRoute → RouteTable → RouteTable × Option ℕ
choose_successor n r route t =
    let successor : Option ℕ = neighbour_of route in
    if is_useless r.neigh successor
    then (let (t', other) = find_best_route n.sources n.smoothing r.to false (some r.neigh) t in
        (t', or_else (neighbour_of other) successor))
    else (t, successor)

abbrev pub recorded_request : Responder → SeqnoRequest → Resends → Resends
recorded_request n r resends =
    (record_resend n.filters n.calloc n.now request r.to r.seqno (some r.id) (some r.ifp) r.ifindex
      0 resends).0

abbrev pub pass_on : Responder → SeqnoRequest → Requests → Option ℕ → Requests × List Reaction
pass_on n r s none = (s, [])
pass_on n r s (some successor) = if successor == r.neigh then (s, []) else (
  record s { resends = recorded_request n r s.resends },
  forwarded successor (r.hop_count - 1) ∷ [],
)

unfoldable pub forward_request :
    Responder → SeqnoRequest → Option BabelRoute → Requests → Requests × List Reaction
unfolding choose_successor
forward_request n r route s =
    let (t, successor) = choose_successor n r route s.table in
    pass_on n r (record s { table = t }) successor

abbrev pub is_repeated : Responder → SeqnoRequest → Resends → Bool
is_repeated n r resends =
    request_redundant n.now (some r.ifp) (some r.hello_interval) r.to r.seqno r.id resends.to_resend

-- The last hop, a seqno that is too far ahead, or a repetition.
abbrev pub is_dropped : Responder → SeqnoRequest → Option BabelRoute → Resends → Bool
is_dropped n r route resends =
    leb r.hop_count 1 || (is_out_of_date n r route || is_repeated n r resends)

unfoldable pub pursue :
    Responder → SeqnoRequest → Option BabelRoute → Requests → Requests × List Reaction
unfolding forward_request
pursue n r route s = if is_dropped n r route s.resends then (s, []) else forward_request n r route s

unfoldable pub handle_request : Responder → SeqnoRequest → Requests → Requests × List Reaction
unfolding answer_own pursue
handle_request n r s =
    let xroute : Option ℕ = find_xroute r.to n.xroutes in
    let route : Option BabelRoute = find_installed_route n.sources r.to s.table in
    if is_announced n xroute route
    then answer_own n r s
    else (if satisfies n r route then (s, answered ∷ []) else pursue n r route s)
