-- ===== src/Source.antt =====
-- source.c and source.h: the table of sources, that is of pairs of a prefix and the router that
-- announces it, each with the feasibility distance (seqno, metric) of the destination.
pub mod Order
pub mod Table
pub mod Expiry
use rabeld.Prelude.{
  ℕ, zero, suc, ◌+◌, ◌-◌, ◌*◌, ◌/◌, compare, Ordering, Bool, true, false, ltb, leb, ◌==◌, ◌&&◌,
  ◌||◌, not, if◌then◌else◌, List, [], ◌∷◌, get_or, set, length, take, replicate, Option, some, none,
}
use rabeld.Prelude.Order.{then_compare}
use rabeld.Prelude.Bytes.{memcmp, is_lt}
use rabeld.Slots.{Slot, found, absent, find_slot, insert_at}
use rabeld.Util.Seqno.{seqno_compare}

-- INFINITY of babeld.h, the metric of an unreachable destination.
abbrev pub infinity : ℕ
infinity = 0xFFFF

abbrev pub source_gc_time : ℕ
source_gc_time = 200

pub record Source : Type 0 where
  pub prefix : List ℕ
  pub src_prefix : List ℕ
  pub id : List ℕ
  pub plen : ℕ
  pub src_plen : ℕ
  pub seqno : ℕ
  pub metric : ℕ
  pub route_count : ℕ
  pub time : ℕ

-- What calloc gives.
abbrev pub blank : Source
blank = record {
  prefix = replicate 16 0;
  src_prefix = replicate 16 0;
  id = replicate 8 0;
  plen = 0;
  src_plen = 0;
  seqno = 0;
  metric = 0;
  route_count = 0;
  time = 0;
}

-- `src_plen` is an argument that the code does not look at.
unfoldable pub source_compare : List ℕ → List ℕ → ℕ → List ℕ → ℕ → Source → Ordering
source_compare id prefix plen src_prefix src_plen src = then_compare (memcmp 8 id src.id) (
    then_compare (compare plen src.plen)
      (then_compare (memcmp 16 prefix src.prefix) (memcmp 16 src_prefix src.src_prefix)))

-- The static variables of source.c; `source_slots` is the length of the array.
pub record SourceTable : Type 0 where
  pub sources : List Source
  pub max_source_slots : ℕ

abbrev pub source_slots : SourceTable → ℕ
source_slots t = length t.sources

unfoldable pub find_source_slot : List ℕ → List ℕ → ℕ → List ℕ → ℕ → SourceTable → Slot
find_source_slot id prefix plen src_prefix src_plen t =
    find_slot (λ m. source_compare id prefix plen src_prefix src_plen (get_or t.sources m blank))
      (source_slots t)

-- `realloc` says whether realloc finds memory. Only a caller's assertion forbids a shrinking below
-- the slots in use, and no caller asks for one.
unfoldable pub resize_source_table : Bool → ℕ → SourceTable → SourceTable
resize_source_table realloc new_slots t =
    if new_slots == 0 || realloc then record t { max_source_slots = new_slots } else t

-- The memory that the system grants: what calloc and realloc return.
pub record Memory : Type 0 where
  pub calloc : Bool
  pub realloc : Bool

unfoldable pub new_source : List ℕ → List ℕ → ℕ → List ℕ → ℕ → ℕ → ℕ → Source
new_source id prefix plen src_prefix src_plen seqno now = record {
  prefix = take 16 prefix;
  src_prefix = take 16 src_prefix;
  id = take 8 id;
  plen = plen;
  src_plen = src_plen;
  seqno = seqno;
  metric = infinity;
  route_count = 0;
  time = now;
}

-- The table, grown if it is full.
unfoldable pub make_room : Bool → SourceTable → SourceTable
unfolding resize_source_table
make_room realloc t =
    if leb t.max_source_slots (source_slots t)
    then resize_source_table realloc
        (if ltb t.max_source_slots 1 then 8 else 2 * t.max_source_slots) t
    else t

-- The part of find_source that makes a source, to stand at index n. The source is returned as its
-- index in the table, NULL as `none`.
unfoldable pub create_source : Memory → ℕ → Source → SourceTable → SourceTable × Option ℕ
create_source memory n src t =
    let t' : SourceTable = make_room memory.realloc t in
    if not memory.calloc
    then (t, none)
    else (if leb t'.max_source_slots (source_slots t')
        then (t', none)
        else (record t' { sources = insert_at n src t'.sources }, some n))

unfoldable pub find_source :
    Memory → ℕ → List ℕ → List ℕ → ℕ → List ℕ → ℕ → Bool → ℕ → SourceTable → SourceTable × Option ℕ
find_source memory now id prefix plen src_prefix src_plen create seqno t =
    elim (find_source_slot id prefix plen src_prefix src_plen t) [
      | found i ↦ (t, some i)
      | absent n ↦
          if not create
          then (t, none)
          else create_source memory n (new_source id prefix plen src_prefix src_plen seqno now) t
    ]

-- `none` is a failed assertion.
unfoldable pub retain_source : Source → Option Source
retain_source src =
    if ltb src.route_count 0xFFFF
    then some (record src { route_count = src.route_count + 1 })
    else none

unfoldable pub release_source : Source → Option Source
release_source src =
    if ltb 0 src.route_count then some (record src { route_count = src.route_count - 1 }) else none

-- `time < now - SOURCE_GC_TIME` in signed arithmetic
abbrev pub is_stale : ℕ → Source → Bool
is_stale now src = ltb (src.time + source_gc_time) now

unfoldable pub update_source : ℕ → ℕ → ℕ → Source → Source
unfolding seqno_compare
update_source now seqno metric src =
    if leb infinity metric
    then src
    else (if is_stale now src
          || is_lt (seqno_compare src.seqno seqno)
          || (src.seqno == seqno && ltb metric src.metric)
        then record src { seqno = seqno; metric = metric; time = now }
        else record src { time = now })

-- A cell of the array while expire_sources runs: `none` is NULL.
abbrev pub Cells : Type 0
Cells = List (Option Source)

-- "clock stepped"
abbrev pub not_later : ℕ → Source → Source
not_later now src = if ltb now src.time then record src { time = now } else src

abbrev pub is_expired : ℕ → Source → Bool
is_expired now src = src.route_count == 0 && is_stale now src

-- The rounds of the loop of expire_sources that are left, with its i and j; the result is the
-- array and the last j. The cell at i is never NULL (Source/Expiry.antt).
unfoldable pub expire_loop : ℕ → ℕ → Cells → ℕ → ℕ → Cells × ℕ
expire_loop zero now cells i j = (cells, j)
expire_loop (suc rounds) now cells i j = elim (get_or cells i none) [
  | none ↦ (cells, j)
  | some src ↦
      let src' : Source = not_later now src in
      let gone : Cells = set cells i none in
      let stays : Cells = set cells i (some src') in
      let moved : Cells = if ltb j i then set (set stays j (some src')) i none else stays in
      let drop_it : Cells × ℕ = expire_loop rounds now gone (i + 1) j in
      let keep_it : Cells × ℕ = expire_loop rounds now moved (i + 1) (j + 1) in
      if is_expired now src' then drop_it else keep_it
]

-- The sources in the first j cells.
abbrev pub contents : Cells → List Source
contents [] = []
contents (none ∷ cells) = contents cells
contents (some src ∷ cells) = src ∷ contents cells

abbrev pub cells_of : List Source → Cells
cells_of [] = []
cells_of (src ∷ sources) = some src ∷ cells_of sources

unfoldable pub expire_sources : ℕ → SourceTable → SourceTable
unfolding expire_loop
expire_sources now t =
    let (cells, j) = expire_loop (source_slots t) now (cells_of t.sources) 0 0 in
    record t { sources = contents (take j cells) }

-- The sources that check_sources_released warns of, in the order of the table.
unfoldable pub check_sources_released : List Source → List Source
check_sources_released [] = []
check_sources_released (src ∷ rest) =
    if src.route_count == 0 then check_sources_released rest else src ∷ check_sources_released rest
