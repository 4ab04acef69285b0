-- ===== src/Message/Send.antt =====
-- message.c: really_send_update, which writes an update into the buffer of an interface.
pub mod Room
pub mod RoundTrip
pub mod Bound
pub mod Roomy
pub mod Steps
use rabeld.Prelude.{
  ℕ, zero, suc, ◌+◌, ◌-◌, ◌*◌, ◌/◌, ◌%◌, Bool, true, false, ltb, leb, ◌==◌, ◌&&◌, ◌||◌, not,
  if◌then◌else◌, min, List, [], ◌∷◌, ◌++◌, get_or, drop, length, Option, some, none,
}
use rabeld.Prelude.Bytes.{mem_eq}
use rabeld.Util.Prefix.{v4mapped}
use rabeld.Source.{infinity}
use rabeld.Resend.{Destination}
use rabeld.Message.{htons}
use rabeld.Message.Prefix.{bytes}
use rabeld.Message.Parse.{
  message_nh, message_router_id, message_update, message_update_src_specific,
}

-- What the neighbours on an interface know from the messages in its buffer: the arrays with their
-- `have_` flags are options.
pub record Buffered : Type 0 where
  pub nh : Option (List ℕ)
  pub id : Option (List ℕ)
  pub prefix : Option (List ℕ)

abbrev pub nothing_buffered : Buffered
nothing_buffered = record { nh = none; id = none; prefix = none }

-- The fields of the interface that sending reads; `ipv4` is `none` for NULL. `channel_diversity` is
-- whether diversity_kind is DIVERSITY_CHANNEL.
pub record Sender : Type 0 where
  pub up : Bool
  pub ipv4 : Option (List ℕ)
  pub bufsize : ℕ
  pub update_interval : ℕ
  pub channel_diversity : Bool

-- The interface's buffer; its length is `buffered`.
pub record Output : Type 0 where
  pub sendbuf : List ℕ
  pub known : Buffered

-- flushbuf, with no updates left to flush: the empty buffer, and the body of the packet, if there is
-- one. Whether check_bucket lets the packet out, and the timestamp that fill_rtt_message puts into a
-- hello, are left out.
unfoldable pub flushbuf : Output → Output × List (List ℕ)
flushbuf o = (
  record { sendbuf = []; known = nothing_buffered },
  if length o.sendbuf == 0 then [] else o.sendbuf ∷ [],
)

unfoldable pub ensure_space : Sender → ℕ → Output → Output × List (List ℕ)
ensure_space ifp space o =
    if ltb (ifp.bufsize - length o.sendbuf) space then flushbuf o else (o, [])

unfoldable pub is_v4 : Destination → Bool
is_v4 d = leb 96 d.plen && v4mapped d.prefix

-- The loop that counts the bytes to omit, among the first `limit`.
unfoldable pub common_bytes : ℕ → List ℕ → List ℕ → ℕ
common_bytes zero p q = 0
common_bytes (suc limit) p q =
    if get_or p 0 0 == get_or q 0 0 then suc (common_bytes limit (drop 1 p) (drop 1 q)) else 0

abbrev pub omitted_bytes : Buffered → Destination → ℕ
omitted_bytes k d = elim (k.prefix) [
  | none ↦ 0
  | some last ↦ if is_v4 d then 0 else common_bytes (d.plen / 8) last d.prefix
]

abbrev pub is_none : Option (List ℕ) → Bool
is_none none = true
is_none (some p) = false

-- The flag 0x80: neighbours are to remember the prefix.
abbrev pub remembers : Buffered → Destination → Bool
remembers k d = not (is_v4 d) && (d.src_plen == 0 && (is_none k.prefix || leb 48 d.plen))

abbrev pub known_id : Buffered → List ℕ → Bool
known_id k id = elim (k.id) [ none ↦ false | some last ↦ mem_eq 8 id last ]

-- What is sent of a prefix: all but the first 12 bytes of an IPv4 one.
abbrev pub real_prefix : Destination → List ℕ → List ℕ
real_prefix d p = if is_v4 d then drop 12 p else p

abbrev pub real_plen : Destination → ℕ → ℕ
real_plen d plen = if is_v4 d then plen - 96 else plen

-- `(unsigned char) real_src_plen`, which is negative for an IPv4 prefix with a source prefix length
-- from 1 to 95.
abbrev pub src_plen_byte : Destination → ℕ
src_plen_byte d = if is_v4 d then (d.src_plen + 160) % 256 else d.src_plen

-- `(real_src_plen + 7) / 8` is negative, so that memcpy is called with a length that no buffer has. (A
-- quotient is rounded towards 0, so that it is 0 for the lengths from 82 to 95.)
abbrev pub overruns : Destination → Bool
overruns d = is_v4 d && (not (d.src_plen == 0) && ltb d.src_plen 82)

-- The flag 0x40: the router-id is the end of the prefix.
abbrev pub implies_id : List ℕ → Destination → Bool
implies_id id d =
    d.src_plen == 0 && (real_plen d d.plen == 128 && mem_eq 8 (drop 8 (real_prefix d d.prefix)) id)

abbrev pub known_nh : Buffered → List ℕ → Bool
known_nh k a = elim (k.nh) [ none ↦ false | some last ↦ mem_eq 4 last a ]

-- The message with the next hop of IPv4 routes, if it is needed.
unfoldable pub nh_message : Buffered → List ℕ → List ℕ
nh_message k a = if known_nh k a then [] else message_nh ∷ 6 ∷ 1 ∷ 0 ∷ bytes 4 a

unfoldable pub id_message : Buffered → List ℕ → Destination → List ℕ
id_message k id d =
    if known_id k id || implies_id id d then [] else message_router_id ∷ 10 ∷ 0 ∷ 0 ∷ bytes 8 id

abbrev pub flags_of : Buffered → List ℕ → Destination → ℕ
flags_of k id d =
    (if remembers k d then 0x80 else 0)
    + (if not (known_id k id) && implies_id id d then 0x40 else 0)

-- The sub-TLV with the channels, `none` for a negative length.
abbrev pub channel_bytes : Option (List ℕ) → List ℕ
channel_bytes none = []
channel_bytes (some channels) = 2 ∷ length channels ∷ channels

abbrev pub size_of : ℕ → ℕ
size_of plen = (plen + 7) / 8

unfoldable pub update_body :
    Sender → ℕ → List ℕ → Destination → ℕ → ℕ → Option (List ℕ) → Buffered → List ℕ
update_body ifp omit id d seqno metric channels k =
    (if is_v4 d then 1 else 2)
      ∷ (if d.src_plen == 0 then flags_of k id d else src_plen_byte d)
      ∷ real_plen d d.plen
      ∷ omit
      ∷ htons ((ifp.update_interval + 5) / 10)
    ++ (htons seqno
        ++ (htons metric
            ++ (bytes (size_of (real_plen d d.plen) - omit) (drop omit (real_prefix d d.prefix))
                ++ ((if d.src_plen == 0
                      then []
                      else bytes (size_of (real_plen d d.src_plen)) (real_prefix d d.src_prefix))
                    ++ channel_bytes channels))))

-- The length that start_message is given for the update.
abbrev pub update_length : ℕ → Destination → Option (List ℕ) → ℕ
update_length omit d channels =
    10
    + size_of (real_plen d d.plen)
    - omit
    + (if d.src_plen == 0 then 0 else size_of (real_plen d d.src_plen))
    + (elim channels [ none ↦ 0 | some c ↦ length c + 2 ])

unfoldable pub update_message :
    Sender → List ℕ → Destination → ℕ → ℕ → Option (List ℕ) → Buffered → List ℕ
update_message ifp id d seqno metric channels k =
    (if d.src_plen == 0 then message_update else message_update_src_specific)
    ∷ update_length (omitted_bytes k d) d channels
    ∷ update_body ifp (omitted_bytes k d) id d seqno metric channels k

unfoldable pub start_message : Sender → ℕ → Output → Output × List (List ℕ)
start_message ifp len o =
    if ltb (ifp.bufsize - length o.sendbuf) (len + 2) then flushbuf o else (o, [])

-- The next hop of IPv4 routes: it is sent and noted if it is not known. (If it is, the four bytes that
-- are noted are the same.)
unfoldable pub send_nh : Sender → List ℕ → Output → Output × List (List ℕ)
unfolding start_message
send_nh ifp a o =
    let (o', packets) = if known_nh o.known a then (o, []) else start_message ifp 6 o in
    (
      record {
        sendbuf = o'.sendbuf ++ nh_message o.known a;
        known = record o'.known { nh = some (bytes 4 a) };
      },
      packets,
    )

-- The router-id: it is sent if it is neither known nor implied by the prefix.
unfoldable pub send_id : Sender → List ℕ → Destination → Output → Output × List (List ℕ)
unfolding start_message
send_id ifp id d o =
    let (o', packets) =
      if known_id o.known id || implies_id id d then (o, []) else start_message ifp 10 o in
    (
      record {
        sendbuf = o'.sendbuf ++ id_message o.known id d;
        known = record o'.known {
          id = if known_id o.known id then o.known.id else some (bytes 8 id);
        };
      },
      packets,
    )

-- From the router-id on. The bytes to omit and the flags are those of the state before it, even if a
-- message that is started later flushes the buffer.
unfoldable pub send_from_id :
    Sender → List ℕ → Destination → ℕ → ℕ → Option (List ℕ) → Output → Output × List (List ℕ)
unfolding send_id
send_from_id ifp id d seqno metric channels o =
    let (o₁, ps₁) = send_id ifp id d o in
    let (o₂, ps₂) = start_message ifp (update_length (omitted_bytes o.known d) d channels) o₁ in
    (
      record {
        sendbuf = o₂.sendbuf ++ update_message ifp id d seqno metric channels o.known;
        known =
            if remembers o.known d
            then (record o₂.known { prefix = some (bytes 16 d.prefix) })
            else o₂.known;
      },
      ps₁ ++ ps₂,
    )

unfoldable pub send_messages :
    Sender
    → List ℕ
    → List ℕ
    → Destination
    → ℕ
    → ℕ
    → Option (List ℕ)
    → Output
    → Output × List (List ℕ)
unfolding send_nh send_from_id
send_messages ifp a id d seqno metric channels o =
    let (o₁, ps₁) = if is_v4 d then send_nh ifp a o else (o, []) in
    let (o₂, ps₂) = send_from_id ifp id d seqno metric channels o₁ in (o₂, ps₁ ++ ps₂)

-- `add_metric` is what output_filter returns. The packets are those that ensure_space and start_message
-- send; the timers that end_message sets are left out. `none` is undefined behaviour.
unfoldable pub really_send_update :
    Sender
    → ℕ
    → List ℕ
    → Destination
    → ℕ
    → ℕ
    → Option (List ℕ)
    → Output
    → Option (Output × List (List ℕ))
unfolding send_messages
really_send_update ifp add_metric id d seqno metric channels o =
    if not ifp.up || leb infinity add_metric
    then some (o, [])
    else (let (o', packets) = ensure_space ifp 78 o in
        let sent : List ℕ → Output × List (List ℕ) = λ a.
          send_messages ifp a id d seqno (min (metric + add_metric) infinity)
            (if ifp.channel_diversity then channels else none) o' in
        if is_v4 d
        then (elim (ifp.ipv4) [
          | none ↦ some (o', packets)
          | some a ↦ if overruns d then none else some ((sent a).0, packets ++ (sent a).1)
        ])
        else some ((sent []).0, packets ++ (sent []).1))
