-- ===== src/Resend.antt =====
-- resend.c and resend.h: the requests and updates that are sent again until they are answered or
-- given up. The functions that configuration.c filters by are an argument.
pub mod Find
pub mod Time
pub mod Send
use rabeld.Prelude.{
  ℕ, zero, suc, ◌-◌, ◌*◌, Bool, true, false, ◌&&◌, ◌||◌, not, ltb, leb, ◌==◌, if◌then◌else◌, min,
  List, [], ◌∷◌, replicate, Option, some, none,
}
use rabeld.Prelude.Bytes.{mem_eq, is_gt, is_lt}
use rabeld.Util.Seqno.{seqno_compare}
use rabeld.Util.Prefix.{v6_equal}
use rabeld.Util.Timeval.{
  Timeval, zero_time, timeval_minus_msec, timeval_add_msec, timeval_min, timeval_compare,
}
use rabeld.Source.{infinity}

abbrev pub request_timeout : ℕ
request_timeout = 65000

abbrev pub resend_max : ℕ
resend_max = 3

-- RESEND_REQUEST and RESEND_UPDATE
pub data Kind : Type 0 where
  request update : Kind

abbrev pub same_kind : Kind → Kind → Bool
same_kind request request = true
same_kind request update = false
same_kind update request = false
same_kind update update = true

-- `ifp` is the pointer to an interface, `none` for NULL.
pub record Resend : Type 0 where
  pub kind : Kind
  pub id : List ℕ
  pub plen : ℕ
  pub src_plen : ℕ
  pub max : ℕ
  pub prefix : List ℕ
  pub src_prefix : List ℕ
  pub delay : ℕ
  pub seqno : ℕ
  pub time : Timeval
  pub ifp : Option ℕ

-- The static variables of resend.c.
pub record Resends : Type 0 where
  pub to_resend : List Resend
  pub resend_time : Timeval

-- The prefix and source prefix that a function is called with.
pub record Destination : Type 0 where
  pub prefix : List ℕ
  pub plen : ℕ
  pub src_prefix : List ℕ
  pub src_plen : ℕ

unfoldable pub resend_match : Kind → Destination → Resend → Bool
resend_match kind d r =
    same_kind r.kind kind
    && (r.plen == d.plen
        && (v6_equal r.prefix d.prefix
            && (r.src_plen == d.src_plen && v6_equal r.src_prefix d.src_prefix)))

unfoldable pub find_resend : Kind → Destination → List Resend → Option Resend
find_resend kind d [] = none
find_resend kind d (r ∷ rest) = if resend_match kind d r then some r else find_resend kind d rest

unfoldable pub find_request : Destination → List Resend → Option Resend
find_request d rs = find_resend request d rs

-- The list after the entry that find_resend returns has been changed where it stands.
unfoldable pub change_found : (Resend → Resend) → Kind → Destination → List Resend → List Resend
change_found f kind d [] = []
change_found f kind d (r ∷ rest) =
    if resend_match kind d r then f r ∷ rest else r ∷ change_found f kind d rest

unfoldable pub resend_expired : Timeval → Resend → Bool
resend_expired now r = elim (r.kind) [
  | request ↦ leb request_timeout (timeval_minus_msec now r.time)
  | update ↦ r.max == 0
]

abbrev pub same_pointer : Option ℕ → Option ℕ → Bool
same_pointer none none = true
same_pointer none (some b) = false
same_pointer (some a) none = false
same_pointer (some a) (some b) = a == b

-- The metrics that input_filter and output_filter give for a destination and an interface.
pub record Filters : Type 0 where
  pub input_filter : Destination → ℕ → ℕ
  pub output_filter : Destination → ℕ → ℕ

unfoldable pub is_filtered : Filters → Kind → Destination → ℕ → Bool
is_filtered filters request d ifindex = leb infinity (filters.input_filter d ifindex)
is_filtered filters update d ifindex = leb infinity (filters.output_filter d ifindex)

-- The results 0, -1 and 1 of record_resend.
pub data Recorded : Type 0 where
  ignored no_memory recorded : Recorded

-- An entry found in the list, up to the early return of a request that is older than it.
unfoldable pub refresh : Timeval → ℕ → Resend → Resend
refresh now delay r = record r {
  delay =
      if not (r.delay == 0) && not (delay == 0)
      then min r.delay delay
      else (if not (delay == 0) then delay else r.delay);
  time = now;
  max = resend_max;
}

-- Whether the entry is for a newer seqno of the same router.
unfoldable pub is_newer : Option (List ℕ) → ℕ → Resend → Bool
is_newer none seqno r = false
is_newer (some id) seqno r = mem_eq 8 r.id id && is_gt (seqno_compare r.seqno seqno)

abbrev pub id_or_zero : Option (List ℕ) → List ℕ
id_or_zero none = replicate 8 0
id_or_zero (some id) = id

unfoldable pub replace : Option (List ℕ) → ℕ → Option ℕ → Resend → Resend
replace id seqno ifp r = record r {
  id = id_or_zero id;
  seqno = seqno;
  ifp = if same_pointer r.ifp ifp then r.ifp else none;
}

unfoldable pub new_resend :
    Timeval → Kind → Destination → ℕ → Option (List ℕ) → Option ℕ → ℕ → Resend
new_resend now kind d seqno id ifp delay = record {
  kind = kind;
  id = id_or_zero id;
  plen = d.plen;
  src_plen = d.src_plen;
  max = resend_max;
  prefix = d.prefix;
  src_prefix = d.src_prefix;
  delay = delay;
  seqno = seqno;
  time = now;
  ifp = ifp;
}

abbrev pub timeout : Resend → Timeval
timeout r = timeval_add_msec r.time r.delay

-- The end of record_resend: an entry with a delay brings the next time of sending forward.
abbrev pub schedule : Resend → Timeval → Timeval
schedule r t = if r.delay == 0 then t else timeval_min t (timeout r)

-- `ifindex` is the index of the interface, 0 if there is none, and `calloc` says whether there is
-- memory.
unfoldable pub record_resend :
    Filters
    → Bool
    → Timeval
    → Kind
    → Destination
    → ℕ
    → Option (List ℕ)
    → Option ℕ
    → ℕ
    → ℕ
    → Resends
    → Resends × Recorded
record_resend filters calloc now kind d seqno id ifp ifindex delay s =
    let wait : ℕ = min delay 0xFFFF in
    if is_filtered filters kind d ifindex
    then (s, ignored)
    else elim (find_resend kind d s.to_resend) [
      | some r ↦
          let r₁ : Resend = refresh now wait r in
          let r₂ : Resend = replace id seqno ifp r₁ in
          if is_newer id seqno r₁
          then (
            record s { to_resend = change_found (refresh now wait) kind d s.to_resend },
            ignored,
          )
          else (
            record {
              to_resend =
                  change_found (λ e. replace id seqno ifp (refresh now wait e)) kind d s.to_resend;
              resend_time = schedule r₂ s.resend_time;
            },
            recorded,
          )
      | none ↦
          let r : Resend = new_resend now kind d seqno id ifp wait in
          if calloc
          then (
            record { to_resend = r ∷ s.to_resend; resend_time = schedule r s.resend_time },
            recorded,
          )
          else (s, no_memory)
    ]

-- `hello_interval` is that of the interface, `none` for NULL.
unfoldable pub request_redundant :
    Timeval → Option ℕ → Option ℕ → Destination → ℕ → List ℕ → List Resend → Bool
request_redundant now ifp hello_interval d seqno id rs = elim (find_request d rs) [
  | none ↦ false
  | some r ↦
      if resend_expired now r
      then false
      else (if mem_eq 8 r.id id && is_gt (seqno_compare r.seqno seqno)
          then false
          else (if not (same_pointer r.ifp none) && not (same_pointer r.ifp ifp)
              then false
              else (if ltb 0 r.max
                  then true
                  else ltb (timeval_minus_msec now r.time)
                      (elim hello_interval [ none ↦ 1000 | some h ↦ min h 1000 ]))))
]

unfoldable pub unsatisfied_request : Timeval → Destination → ℕ → List ℕ → List Resend → Bool
unsatisfied_request now d seqno id rs = elim (find_request d rs) [
  | none ↦ false
  | some r ↦
      not (resend_expired now r)
      && (not (mem_eq 8 r.id id) || not (is_gt (seqno_compare r.seqno seqno)))
]

-- Whether the entry will be sent again.
abbrev pub is_active : Timeval → Resend → Bool
is_active now r = not (resend_expired now r) && (ltb 0 r.delay && ltb 0 r.max)

abbrev pub next_time : Timeval → Timeval → Resend → Timeval
next_time now t r = if is_active now r then timeval_min t (timeout r) else t

-- The loop of recompute_resend_time, with its variable `resend`.
unfoldable pub recompute_from : Timeval → Timeval → List Resend → Timeval
recompute_from now t [] = t
recompute_from now t (r ∷ rest) = recompute_from now (next_time now t r) rest

unfoldable pub recompute_resend_time : Timeval → Resends → Resends
recompute_resend_time now s = record s { resend_time = recompute_from now zero_time s.to_resend }

-- "Mark it as expired": with no tries left, and with a time at the start of the clock.
unfoldable pub expire_mark : Resend → Resend
expire_mark r = record r { max = 0; time = record r.time { sec = 0 } }

unfoldable pub satisfy_request :
    Timeval → Destination → ℕ → List ℕ → Option ℕ → Resends → Resends × Bool
satisfy_request now d seqno id ifp s = elim (find_request d s.to_resend) [
  | none ↦ (s, false)
  | some r ↦
      if not (same_pointer ifp none) && not (same_pointer r.ifp ifp)
      then (s, false)
      else (if not (mem_eq 8 r.id id) || not (is_gt (seqno_compare r.seqno seqno))
          then (
            recompute_resend_time now
                (record s { to_resend = change_found expire_mark request d s.to_resend }),
            true,
          )
          else (s, false))
]

-- The entries that are not expired, in their order.
unfoldable pub unexpired : Timeval → List Resend → List Resend
unexpired now [] = []
unexpired now (r ∷ rest) =
    if resend_expired now r then unexpired now rest else r ∷ unexpired now rest

abbrev pub any_expired : Timeval → List Resend → Bool
any_expired now [] = false
any_expired now (r ∷ rest) = resend_expired now r || any_expired now rest

unfoldable pub expire_resend : Timeval → Resends → Resends
expire_resend now s =
    let s' : Resends = record s { to_resend = unexpired now s.to_resend } in
    if any_expired now s.to_resend then recompute_resend_time now s' else s'

-- What do_resend sends for an entry: send_multihop_request or send_update.
pub data Sent : Type 0 where
  multihop_request : Resend → Sent
  an_update : Resend → Sent

abbrev pub message_of : Resend → Sent
message_of r = elim (r.kind) [ request ↦ multihop_request r | update ↦ an_update r ]

abbrev pub is_due : Timeval → Resend → Bool
is_due now r = is_active now r && not (is_lt (timeval_compare now (timeout r)))

-- The entry after it has been sent once more.
abbrev pub sent_once_more : Resend → Resend
sent_once_more r = record r { delay = min 0xFFFF (r.delay * 2); max = r.max - 1 }

unfoldable pub resend_all : Timeval → List Resend → List Resend × List Sent
resend_all now [] = ([], [])
resend_all now (r ∷ rest) =
    let (rest', sent) = resend_all now rest in
    if is_due now r then (sent_once_more r ∷ rest', message_of r ∷ sent) else (r ∷ rest', sent)

unfoldable pub do_resend : Timeval → Resends → Resends × List Sent
do_resend now s =
    let (rs, sent) = resend_all now s.to_resend in
    (recompute_resend_time now (record s { to_resend = rs }), sent)
