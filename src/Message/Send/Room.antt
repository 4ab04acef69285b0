-- ===== src/Message/Send/Room.antt =====
-- message.c: what one update takes when no message of it flushes the buffer.
use rabeld.Prelude.{ℕ, ◌+◌, leb, not, ◌||◌, if◌then◌else◌, min, List, [], ◌++◌, Option, some, none}
use rabeld.Source.{infinity}
use rabeld.Resend.{Destination}
use rabeld.Message.Prefix.{bytes}
use rabeld.Message.Send.{
  Sender, Buffered, Output, is_v4, remembers, known_id, nh_message, id_message, update_message,
  ensure_space,
}

-- What the neighbours know after an update; `a` is the interface's IPv4 address.
unfoldable pub known_after : List ℕ → List ℕ → Destination → Buffered → Buffered
known_after a id d k = record {
  nh = if is_v4 d then some (bytes 4 a) else k.nh;
  id = if known_id k id then k.id else some (bytes 8 id);
  prefix = if remembers k d then some (bytes 16 d.prefix) else k.prefix;
}

-- The messages that one update takes.
unfoldable pub written_messages :
    Sender → List ℕ → List ℕ → Destination → ℕ → ℕ → Option (List ℕ) → Buffered → List ℕ
written_messages ifp a id d seqno metric channels k =
    (if is_v4 d then nh_message k a else [])
    ++ (id_message k id d ++ update_message ifp id d seqno metric channels k)

-- The buffer after the messages of an update.
abbrev pub roomy_messages :
    Sender → List ℕ → List ℕ → Destination → ℕ → ℕ → Option (List ℕ) → Output → Output
roomy_messages ifp a id d seqno metric channels o = record {
  sendbuf = o.sendbuf ++ written_messages ifp a id d seqno metric channels o.known;
  known = known_after a id d o.known;
}

-- really_send_update where the space that is ensured is enough.
unfoldable pub roomy_update :
    Sender → ℕ → List ℕ → Destination → ℕ → ℕ → Option (List ℕ) → Output → Output × List (List ℕ)
roomy_update ifp add_metric id d seqno metric channels o =
    if not ifp.up || leb infinity add_metric
    then (o, [])
    else (let (o', packets) = ensure_space ifp 78 o in
        let written : List ℕ → Output = λ a.
          roomy_messages ifp a id d seqno (min (metric + add_metric) infinity)
            (if ifp.channel_diversity then channels else none) o' in
        if is_v4 d
        then (elim (ifp.ipv4) [ none ↦ (o', packets) | some a ↦ (written a, packets) ])
        else (written [], packets))
