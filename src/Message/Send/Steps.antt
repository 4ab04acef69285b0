-- ===== src/Message/Send/Steps.antt =====
-- message.c: with 78 bytes left, none of the messages of an update flushes the buffer.
use rabeld.Prelude.{
  ℕ, ◌+◌, ◌-◌, ◌≤◌, ◌≡◌, refl, arith, inl, inr, Bool, true, false, ltb, ◌||◌, if◌then◌else◌,
  Bool-cases, List, [], ◌++◌, length, length-append, Option, some, ap, ◌∙◌,
}
use mathlib.Core.List.{append_assoc}
use rabeld.Resend.{Destination}
use rabeld.Message.Prefix.{bytes}
use rabeld.Message.Send.{
  Sender, Buffered, Output, is_v4, known_nh, known_id, implies_id, remembers, omitted_bytes,
  channel_bytes, nh_message, id_message, update_message, update_body, update_length, start_message,
  send_nh, send_id, send_from_id, send_messages,
}
use rabeld.Message.Send.Room.{known_after, written_messages, roomy_messages}
use rabeld.Message.Send.Bound.{length-nh_message-le, length-id_message-le, update_length-le}

-- With 78 bytes left, none of the messages of an update flushes the buffer.
start_message-room :
    (ifp : Sender) (len : ℕ) (o : Output)
    → length o.sendbuf + (len + 2) ≤ ifp.bufsize
    → start_message ifp len o ≡ (o, [])
unfolding start_message
start_message-room ifp len o room = rw (enough ifp.bufsize (length o.sendbuf) room) refl
  where
    enough : (b n : ℕ) → n + (len + 2) ≤ b → ltb (b - n) (len + 2) ≡ false
    enough b n h = ground arith

send_nh-room :
    (ifp : Sender) (a : List ℕ) (o : Output)
    → length o.sendbuf + 8 ≤ ifp.bufsize
    → send_nh ifp a o ≡ (
      record {
        sendbuf = o.sendbuf ++ nh_message o.known a;
        known = record o.known { nh = some (bytes 4 a) };
      },
      [],
    )
unfolding send_nh
send_nh-room ifp a o room = elim (Bool-cases (known_nh o.known a)) [
  | inl y ↦ rw y refl
  | inr n ↦ rw (n, start_message-room ifp 6 o room) refl
]

send_id-room :
    (ifp : Sender) (id : List ℕ) (d : Destination) (o : Output)
    → length o.sendbuf + 12 ≤ ifp.bufsize
    → send_id ifp id d o ≡ (
      record {
        sendbuf = o.sendbuf ++ id_message o.known id d;
        known = record o.known {
          id = if known_id o.known id then o.known.id else some (bytes 8 id);
        };
      },
      [],
    )
unfolding send_id
send_id-room ifp id d o room = elim (Bool-cases (known_id o.known id || implies_id id d)) [
  | inl y ↦ rw y refl
  | inr n ↦ rw (n, start_message-room ifp 10 o room) refl
]

module _ (ifp : Sender) (a id : List ℕ) (d : Destination) (seqno metric : ℕ)
    (channels : Option (List ℕ)) (short : d.plen ≤ 128) (source_short : d.src_plen ≤ 128)
    (fits : length (channel_bytes channels) ≤ 22) where
  -- The buffer and what is known after the router-id and the update.
  abbrev from_id : Output → Output
  from_id o = record {
    sendbuf =
        (o.sendbuf ++ id_message o.known id d)
        ++ update_message ifp id d seqno metric channels o.known;
    known = record {
      nh = o.known.nh;
      id = if known_id o.known id then o.known.id else some (bytes 8 id);
      prefix = if remembers o.known d then some (bytes 16 d.prefix) else o.known.prefix;
    };
  }

  noted :
      (b : Bool) (k : Buffered) (p : Option (List ℕ))
      → (if b then (record k { prefix = p }) else k)
        ≡ record k { prefix = if b then p else k.prefix }
  noted true k p = refl
  noted false k p = refl

  abbrev after_start : Output → Output × List (List ℕ) → Output × List (List ℕ)
  after_start o (o₂, packets) = (
    record {
      sendbuf = o₂.sendbuf ++ update_message ifp id d seqno metric channels o.known;
      known =
          if remembers o.known d
          then (record o₂.known { prefix = some (bytes 16 d.prefix) })
          else o₂.known;
    },
    packets,
  )

  abbrev after_id : Output → Output × List (List ℕ) → Output × List (List ℕ)
  after_id o (o₁, packets) =
      let started =
        after_start o (start_message ifp (update_length (omitted_bytes o.known d) d channels) o₁) in
      (started.0, packets ++ started.1)

  send_from_id-roomy :
      (o : Output)
      → length o.sendbuf + (46 + ((if is_v4 d then 4 else 16) + (if is_v4 d then 4 else 16)))
        ≤ ifp.bufsize
      → send_from_id ifp id d seqno metric channels o ≡ (from_id o, [])
  unfolding send_from_id
  send_from_id-roomy o room =
      let o₁ : Output = record {
        sendbuf = o.sendbuf ++ id_message o.known id d;
        known = record o.known {
          id = if known_id o.known id then o.known.id else some (bytes 8 id);
        };
      } in
      let small =
        update_length-le ifp a id d seqno metric channels o.known short source_short fits in
      let started = start_message-room ifp (update_length (omitted_bytes o.known d) d channels) o₁ (
        omega (
          arith,
          room,
          small,
          length-append o.sendbuf (id_message o.known id d),
          length-id_message-le o.known id d,
        )) in
      ap (after_id o) (send_id-room ifp id d o (omega (arith, room)))
      ∙ ap (after_start o) started
      ∙ ap
          (λ (k : Buffered). (
            record {
              sendbuf = o₁.sendbuf ++ update_message ifp id d seqno metric channels o.known;
              known = k;
            },
            [],
          ))
          (noted (remembers o.known d) o₁.known (some (bytes 16 d.prefix)))

  abbrev after_nh : Output × List (List ℕ) → Output × List (List ℕ)
  after_nh (o, packets) = (
    (send_from_id ifp id d seqno metric channels o).0,
    packets ++ (send_from_id ifp id d seqno metric channels o).1,
  )

  -- The next hop, and whatever has been done for it, before the rest.
  from_nh :
      (o o₁ : Output)
      → (if is_v4 d then send_nh ifp a o else (o, [])) ≡ (o₁, [])
      → length o₁.sendbuf + (46 + ((if is_v4 d then 4 else 16) + (if is_v4 d then 4 else 16)))
        ≤ ifp.bufsize
      → send_messages ifp a id d seqno metric channels o ≡ (from_id o₁, [])
  unfolding send_messages
  from_nh o o₁ e room = ap after_nh e ∙ send_from_id-roomy o₁ room

  with_nh : Output → Output
  with_nh o = record {
    sendbuf = o.sendbuf ++ nh_message o.known a;
    known = record o.known { nh = some (bytes 4 a) };
  }

  from_id-v6 :
      (o : Output) → is_v4 d ≡ false → from_id o ≡ roomy_messages ifp a id d seqno metric channels o
  unfolding known_after written_messages
  from_id-v6 o v6 = λ i. record {
    sendbuf =
        ((append_assoc o.sendbuf (id_message o.known id d)
              (update_message ifp id d seqno metric channels o.known))
            ∙ ap (λ t. o.sendbuf ++ t) messages)
          i;
    known = known_v6 i;
  }
    where
      messages :
          id_message o.known id d ++ update_message ifp id d seqno metric channels o.known
          ≡ written_messages ifp a id d seqno metric channels o.known
      messages = rw v6 refl

      known_v6 : (from_id o).known ≡ known_after a id d o.known
      known_v6 = rw v6 refl

  from_id-v4 :
      (o : Output)
      → is_v4 d ≡ true
      → from_id (with_nh o) ≡ roomy_messages ifp a id d seqno metric channels o
  unfolding known_after written_messages id_message update_message update_body with_nh
  from_id-v4 o v4 = λ i. record {
    sendbuf =
        (append_assoc (o.sendbuf ++ nh_message o.known a) (id_message o.known id d)
              (update_message ifp id d seqno metric channels o.known)
            ∙ append_assoc o.sendbuf (nh_message o.known a)
                (id_message o.known id d ++ update_message ifp id d seqno metric channels o.known)
            ∙ ap (λ t. o.sendbuf ++ t) messages)
          i;
    known = known_v4 i;
  }
    where
      messages :
          nh_message o.known a
            ++ (id_message o.known id d ++ update_message ifp id d seqno metric channels o.known)
          ≡ written_messages ifp a id d seqno metric channels o.known
      messages = rw v4 refl

      known_v4 : (from_id (with_nh o)).known ≡ known_after a id d o.known
      known_v4 = rw v4 refl

  pub send_messages-roomy :
      (o : Output)
      → length o.sendbuf + 78 ≤ ifp.bufsize
      → send_messages ifp a id d seqno metric channels o
        ≡ (roomy_messages ifp a id d seqno metric channels o, [])
  unfolding with_nh
  send_messages-roomy o room = elim (Bool-cases (is_v4 d)) [
    | inr v6 ↦
        from_nh o o (rw v6 refl) (rw v6 (omega (arith, room))) ∙ ap (λ r. (r, [])) (from_id-v6 o v6)
    | inl v4 ↦
        from_nh o (with_nh o) (rw v4 (send_nh-room ifp a o (omega (arith, room)))) (
          rw v4 (
            omega (
              arith,
              room,
              length-append o.sendbuf (nh_message o.known a),
              length-nh_message-le o.known a,
            )))
        ∙ ap (λ r. (r, [])) (from_id-v4 o v4)
  ]
