-- ===== src/Message/Send/RoundTrip/State.antt =====
-- message.c: what the receiver knows after the messages of really_send_update.
use rabeld.Prelude.{
  ℕ, ◌+◌, ◌≤◌, ◌≡◌, inl, inr, refl, arith, Bool, true, false, ◌&&◌, ◌||◌, not, if◌then◌else◌,
  Bool-cases, Option-cases, List, [], ◌++◌, take, drop, some, ap, subst, sym, ◌∙◌,
}
use rabeld.Prelude.Bytes.{mem_eq}
use rabeld.Util.Prefix.{v4prefix}
use rabeld.Resend.{Destination}
use rabeld.Message.Prefix.{bytes}
use rabeld.Message.Parse.{Link, Heard, remember}
use rabeld.Message.Parse.Loop.{Reads, Reads-nothing}
use rabeld.Message.Send.{
  Buffered, is_v4, remembers, known_id, implies_id, known_nh, nh_message, id_message, flags_of,
}
use rabeld.Message.Send.RoundTrip.{
  v4_address, NhAgrees, IdAgrees, bytes-mem_eq, bytes_self, nh_read, id_read,
}

module _ (link : Link) (a id : List ℕ) (d : Destination) (k : Buffered) where
  abbrev pub after_nh : Heard → Heard
  after_nh h = if is_v4 d then (record h { v4_nh = some (v4_address a) }) else h

  abbrev pub after_id : Heard → Heard
  after_id h =
      if known_id k id || implies_id id d then h else (record h { router_id = some (bytes 8 id) })

  -- After the update itself.
  abbrev pub after_update : Heard → Heard
  after_update h = record h {
    router_id = if not (known_id k id) && implies_id id d then some (bytes 8 id) else h.router_id;
    v6_prefix = if remembers k d then some d.prefix else h.v6_prefix;
  }

  known_v4 : (h : Heard) → NhAgrees k.nh h → known_nh k a ≡ true → h.v4_nh ≡ some (v4_address a)
  known_v4 h synced e = elim (Option-cases k.nh) [
    | inl none' ↦ absurd (ground (arith, none'))
    | inr (last, some') ↦
        let agrees : NhAgrees (some last) h = subst (λ o. NhAgrees o h) some' synced in
        let same : mem_eq 4 last a ≡ true = ground (arith, some') in
        agrees.0 ∙ ap (λ t. some (take 12 v4prefix ++ t)) (bytes-mem_eq 4 last a same)
  ]

  pub nh_message-Reads :
      (h : Heard)
      → NhAgrees k.nh h
      → Reads link h (if is_v4 d then nh_message k a else []) (after_nh h) []
  unfolding nh_message
  nh_message-Reads h synced = elim (Bool-cases (is_v4 d)) [
    | inr n ↦ rw n (Reads-nothing link h)
    | inl v ↦ rw v (elim (Bool-cases (known_nh k a)) [
      | inr new ↦ rw new (nh_read link h a)
      | inl old ↦ rw old (
          subst (λ o. Reads link h [] (record h { v4_nh = o }) []) (known_v4 h synced old)
            (Reads-nothing link h))
    ])
  ]

  pub id_message-Reads : (h : Heard) → Reads link h (id_message k id d) (after_id h) []
  unfolding id_message
  id_message-Reads h = elim (Bool-cases (known_id k id || implies_id id d)) [
    | inl y ↦ rw y (Reads-nothing link h)
    | inr n ↦ rw n (id_read link h id)
  ]

  pub known_router :
      (h : Heard)
      → IdAgrees k.id h
      → known_id k id ≡ true
      → (h.router_id ≡ some (bytes 8 id)) × (k.id ≡ some (bytes 8 id))
  known_router h synced e = elim (Option-cases k.id) [
    | inl none' ↦ absurd (ground (arith, none'))
    | inr (last, some') ↦
        let agrees : IdAgrees (some last) h = subst (λ o. IdAgrees o h) some' synced in
        let same : mem_eq 8 id last ≡ true = ground (arith, some') in
        let equal : last ≡ bytes 8 id =
          sym (bytes_self 8 last agrees.1) ∙ sym (bytes-mem_eq 8 id last same) in
        (agrees.0 ∙ ap some equal, some' ∙ ap some equal)
  ]

  -- Whichever way the router-id came, it is known once the update has been read.
  pub router_id-after :
      (h : Heard) → IdAgrees k.id h → (after_update (after_id h)).router_id ≡ some (bytes 8 id)
  router_id-after h synced = elim (Bool-cases (known_id k id)) [
    | inl old ↦ rw (old, (known_router h synced old).0) refl
    | inr new ↦ elim (Bool-cases (implies_id id d)) [
      | inl i ↦ rw (new, i) refl
      | inr e ↦ rw (new, e) refl
    ]
  ]

  flagged :
      (r i : Bool) (h : Heard)
      → (i ≡ true → bytes 8 (drop 8 d.prefix) ≡ bytes 8 id)
      → remember 2 ((if r then 0x80 else 0) + (if i then 0x40 else 0)) d.prefix h ≡ record h {
        router_id = if i then some (bytes 8 id) else h.router_id;
        v6_prefix = if r then some d.prefix else h.v6_prefix;
      }
  unfolding remember
  flagged false false h e = refl
  flagged true false h e = refl
  flagged false true h e = ap (λ t. record h { router_id = some t }) (e refl)
  flagged true true h e =
      ap (λ t. record h { router_id = some t; v6_prefix = some d.prefix }) (e refl)

  unflagged : (ae : ℕ) (h : Heard) → remember ae 0 d.prefix h ≡ h
  unflagged ae h = unfold remember in refl

  implied-bytes :
      is_v4 d ≡ false
      → not (known_id k id) && implies_id id d ≡ true
      → bytes 8 (drop 8 d.prefix) ≡ bytes 8 id
  implied-bytes n e = bytes-mem_eq 8 (drop 8 d.prefix) id (ground (arith, n))

  -- The flags of the update do what the sender has noted.
  pub remember-flags :
      (h : Heard)
      → d.plen ≤ 128
      → remember (if is_v4 d then 1 else 2) (flags_of k id d) d.prefix h ≡ after_update h
  remember-flags h short = elim (Bool-cases (is_v4 d)) [
    | inr n ↦
        subst
          (λ (v : Bool).
            remember (if v then 1 else 2) (flags_of k id d) d.prefix h ≡ after_update h)
          (sym n)
          (flagged (remembers k d) (not (known_id k id) && implies_id id d) h (implied-bytes n))
    | inl v ↦
        let r : remembers k d ≡ false = ground (arith, v) in
        let i : implies_id id d ≡ false = ground (arith, v) in
        let i' : not (known_id k id) && implies_id id d ≡ false = ground (arith, i) in
        rw (r, i') (unflagged (if is_v4 d then 1 else 2) h)
  ]
