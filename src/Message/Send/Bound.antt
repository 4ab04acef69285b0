-- ===== src/Message/Send/Bound.antt =====
-- message.c: the space that really_send_update ensures is enough.
use rabeld.Prelude.{
  ℕ, ◌+◌, ◌-◌, ◌≤◌, arith, inl, inr, Bool, ltb, leb, ◌==◌, ◌||◌, not, if◌then◌else◌, min,
  Bool-cases, Option-cases, List, [], ◌∷◌, ◌++◌, length, length-append, Option, none, subst, sym,
}
use rabeld.Source.{infinity}
use rabeld.Resend.{Destination}
use rabeld.Message.Send.{
  Sender, Buffered, Output, is_v4, known_nh, known_id, implies_id, real_plen, size_of,
  channel_bytes, nh_message, id_message, update_message, flushbuf, ensure_space, update_length,
  omitted_bytes,
}
use rabeld.Message.Send.Room.{known_after, written_messages, roomy_update}
use rabeld.Message.Send.RoundTrip.Sendable.{length-update_body, length-channel_bytes}

abbrev pub AllShort : ℕ → List (List ℕ) → Type 0
AllShort bufsize [] = Unit
AllShort bufsize (p ∷ ps) = (length p ≤ bufsize) × AllShort bufsize ps

pub length-nh_message-le : (k : Buffered) (a : List ℕ) → length (nh_message k a) ≤ 8
unfolding nh_message
length-nh_message-le k a = elim (Bool-cases (known_nh k a)) [
  | inl y ↦ rw y (omega arith)
  | inr n ↦ rw n (omega arith)
]

pub length-id_message-le :
    (k : Buffered) (id : List ℕ) (d : Destination) → length (id_message k id d) ≤ 12
unfolding id_message
length-id_message-le k id d = elim (Bool-cases (known_id k id || implies_id id d)) [
  | inl y ↦ rw y (omega arith)
  | inr n ↦ rw n (omega arith)
]

module _ (ifp : Sender) (a id : List ℕ) (d : Destination) (seqno metric : ℕ)
    (channels : Option (List ℕ)) (k : Buffered) (short : d.plen ≤ 128)
    (source_short : d.src_plen ≤ 128) (fits : length (channel_bytes channels) ≤ 22) where
  -- The bytes that both prefixes take at most.
  abbrev Small : ℕ → Type 0
  Small limit = length (update_message ifp id d seqno metric channels k) ≤ 34 + limit

  real_plen-le : (n : ℕ) → n ≤ 128 → size_of (real_plen d n) ≤ (if is_v4 d then 4 else 16)
  real_plen-le n le = elim (Bool-cases (is_v4 d)) [
    | inl v ↦ rw v (omega arith)
    | inr v ↦ rw v (omega arith)
  ]

  source-le :
      (if d.src_plen == 0 then 0 else size_of (real_plen d d.src_plen))
      ≤ (if is_v4 d then 4 else 16)
  source-le = elim (Bool-cases (d.src_plen == 0)) [
    | inl y ↦ rw y (omega arith)
    | inr n ↦ rw n (real_plen-le d.src_plen source_short)
  ]

  length-update_message-le : Small ((if is_v4 d then 4 else 16) + (if is_v4 d then 4 else 16))
  unfolding update_message
  length-update_message-le = omega (
    arith,
    sym (length-update_body ifp id d seqno metric channels k),
    length-channel_bytes channels,
    fits,
    real_plen-le d.plen short,
    source-le,
  )

  pub update_length-le :
      update_length (omitted_bytes k d) d channels
      ≤ 32 + ((if is_v4 d then 4 else 16) + (if is_v4 d then 4 else 16))
  update_length-le = omega (
    arith,
    sym (length-update_body ifp id d seqno metric channels k),
    length-channel_bytes channels,
    fits,
    real_plen-le d.plen short,
    source-le,
  )

  pub length-written_messages-le : length (written_messages ifp a id d seqno metric channels k) ≤ 78
  unfolding written_messages
  length-written_messages-le = elim (Bool-cases (is_v4 d)) [
    | inl v ↦
        let small : Small 8 =
          subst (λ (b : Bool). Small ((if b then 4 else 16) + (if b then 4 else 16))) v
            length-update_message-le in
        rw v (
          omega (
            arith,
            small,
            length-nh_message-le k a,
            length-id_message-le k id d,
            length-append (nh_message k a)
                (id_message k id d ++ update_message ifp id d seqno metric channels k),
            length-append (id_message k id d) (update_message ifp id d seqno metric channels k),
          ))
    | inr n ↦
        let small : Small 32 =
          subst (λ (b : Bool). Small ((if b then 4 else 16) + (if b then 4 else 16))) n
            length-update_message-le in
        rw n (
          omega (
            arith,
            small,
            length-id_message-le k id d,
            length-append (id_message k id d) (update_message ifp id d seqno metric channels k),
          ))
  ]

-- The buffer and the packets fit.
pub record FitsBuffer (bufsize : ℕ) (r : Output × List (List ℕ)) : Type 0 where
  pub buffer : length r.0.sendbuf ≤ bufsize
  pub packets : AllShort bufsize r.1

pub ensure_space-room :
    (ifp : Sender) (o : Output)
    → 78 ≤ ifp.bufsize
    → length o.sendbuf ≤ ifp.bufsize
    → (length (ensure_space ifp 78 o).0.sendbuf + 78 ≤ ifp.bufsize)
      × AllShort ifp.bufsize (ensure_space ifp 78 o).1
unfolding ensure_space flushbuf
ensure_space-room ifp o big fits = elim (Bool-cases (ltb (ifp.bufsize - length o.sendbuf) 78)) [
  | inl y ↦ elim (Bool-cases (length o.sendbuf == 0)) [
    | inl e ↦ rw (y, e) (omega arith, tt)
    | inr e ↦ rw (y, e) (omega arith, (fits, tt))
  ]
  | inr n ↦ rw n (ground arith, tt)
]

-- Where it is written without a flush in between, an update never overruns the buffer.
pub roomy_update-FitsBuffer :
    (ifp : Sender) (add_metric : ℕ) (id : List ℕ) (d : Destination) (seqno metric : ℕ)
    (channels : Option (List ℕ))
    → (o : Output) → 78 ≤ ifp.bufsize
    → length o.sendbuf ≤ ifp.bufsize
    → d.plen ≤ 128
    → d.src_plen ≤ 128
    → length (channel_bytes (if ifp.channel_diversity then channels else none)) ≤ 22
    → FitsBuffer ifp.bufsize (roomy_update ifp add_metric id d seqno metric channels o)
unfolding roomy_update
roomy_update-FitsBuffer ifp add_metric id d seqno metric channels o big fits short source_short c =
    elim (Bool-cases (not ifp.up || leb infinity add_metric)) [
      | inl stop ↦ rw stop (record { buffer = fits; packets = tt })
      | inr go ↦ elim (Bool-cases (is_v4 d)) [
        | inr v6 ↦ rw (go, v6) (grown [])
        | inl v4 ↦ elim (Option-cases ifp.ipv4) [
          | inl e ↦ rw (go, v4, e) (record { buffer = omega (arith, room.0); packets = room.1 })
          | inr (a, e) ↦ rw (go, v4, e) (grown a)
        ]
      ]
    ]
  where
    room :
        (length (ensure_space ifp 78 o).0.sendbuf + 78 ≤ ifp.bufsize)
        × AllShort ifp.bufsize (ensure_space ifp 78 o).1
    room = ensure_space-room ifp o big fits

    grown :
        (a : List ℕ)
        → FitsBuffer ifp.bufsize (
          record {
            sendbuf =
                (ensure_space ifp 78 o).0.sendbuf
                ++ written_messages ifp a id d seqno
                    (min (metric + add_metric) infinity)
                    (if ifp.channel_diversity then channels else none)
                    (ensure_space ifp 78 o).0.known;
            known = known_after a id d (ensure_space ifp 78 o).0.known;
          },
          (ensure_space ifp 78 o).1,
        )
    grown a = record {
      buffer = omega (
        arith,
        room.0,
        length-append (ensure_space ifp 78 o).0.sendbuf (
            written_messages ifp a id d seqno (min (metric + add_metric) infinity)
              (if ifp.channel_diversity then channels else none) (ensure_space ifp 78 o).0.known),
        length-written_messages-le ifp a id d seqno (min (metric + add_metric) infinity)
            (if ifp.channel_diversity then channels else none) (ensure_space ifp 78 o).0.known short
            source_short c,
      );
      packets = room.1;
    }
