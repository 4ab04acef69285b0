-- ===== src/Message/Send/RoundTrip/Written.antt =====
-- message.c: all the messages that one call of really_send_update writes, read by parse_packet.
use rabeld.Prelude.{
  ℕ, ◌≡◌, ◌⊎◌, inl, inr, refl, arith, Bool, true, false, ◌==◌, ◌||◌, if◌then◌else◌, Bool-cases,
  List, [], ◌∷◌, ◌++◌, length, Option, some, none, ap, subst, sym, ◌∙◌,
}
use rabeld.Util.Prefix.{v4mapped}
use rabeld.Resend.{Destination}
use rabeld.Message.Prefix.{bytes}
use rabeld.Message.Parse.{Link, Heard, Call, update_route, parse_message, next_hop}
use rabeld.Message.Parse.Loop.{Reads, Reads-message, Reads-append}
use rabeld.Message.Send.{
  Sender, Buffered, is_v4, remembers, known_id, implies_id, update_body, update_length,
  update_message, omitted_bytes, nh_message, id_message,
}
use rabeld.Message.Send.Room.{known_after, written_messages}
use rabeld.Message.Send.RoundTrip.{
  IsSynced, NhAgrees, IdAgrees, PrefixAgrees, v4_address, bytes_self,
}
use rabeld.Message.Send.RoundTrip.State.{
  after_nh, after_id, after_update, nh_message-Reads, id_message-Reads, router_id-after,
  known_router,
}
use rabeld.Message.Send.RoundTrip.Sendable.{IsSendable, received_nh, length-update_body}
use rabeld.Message.Send.RoundTrip.Fields.{sent_update, plain-Understood, specific-Understood}

prefix_same :
    (o : Option (List ℕ)) (h g : Heard)
    → g.v6_prefix ≡ h.v6_prefix
    → PrefixAgrees o h
    → PrefixAgrees o g
prefix_same none h g e p = p
prefix_same (some q) h g e p = (e ∙ p.0, p.1)

id_same :
    (o : Option (List ℕ)) (h g : Heard) → g.router_id ≡ h.router_id → IdAgrees o h → IdAgrees o g
id_same none h g e p = p
id_same (some q) h g e p = (e ∙ p.0, p.1)

nh_same : (o : Option (List ℕ)) (h g : Heard) → g.v4_nh ≡ h.v4_nh → NhAgrees o h → NhAgrees o g
nh_same none h g e p = p
nh_same (some q) h g e p = (e ∙ p.0, p.1)

module _ {A : Type 0} (f : Heard → A) where
  if-same : (b : Bool) (x y : Heard) (z : A) → f x ≡ z → f y ≡ z → f (if b then x else y) ≡ z
  if-same true x y z p q = p
  if-same false x y z p q = q

  ap-if : (b : Bool) (x y : Heard) → f (if b then x else y) ≡ (if b then f x else f y)
  ap-if true x y = refl
  ap-if false x y = refl

if_idem : {A : Type 0} (b : Bool) (x : A) → (if b then x else x) ≡ x
if_idem true x = refl
if_idem false x = refl

module _ (ifp : Sender) (link : Link) (a id : List ℕ) (d : Destination) (seqno metric : ℕ)
    (channels : Option (List ℕ)) (k : Buffered) (ok : IsSendable ifp d seqno metric channels)
    (reached : (is_v4 d ≡ false) ⊎ (link.has_ipv4 ≡ true)) where
  abbrev body : List ℕ
  body = update_body ifp (omitted_bytes k d) id d seqno metric channels k

  abbrev len : ℕ
  len = update_length (omitted_bytes k d) d channels

  module _ (h : Heard) (synced : PrefixAgrees k.prefix h)
      (hop : next_hop link (if is_v4 d then 1 else 2) (after_update link a id d k h)
        ≡ some (received_nh link a d h))
      (router : (after_update link a id d k h).router_id ≡ some (bytes 8 id)) where
    abbrev result : Heard × List Call
    result = (
      after_update link a id d k h,
      update_route (sent_update ifp link a id d seqno metric channels k h) ∷ [],
    )

    message_read :
        (type : ℕ)
        → type == 0 ≡ false
        → ((rest : List ℕ) → parse_message link (type ∷ len ∷ body ++ rest) len h ≡ result)
        → Reads link h (type ∷ len ∷ body) result.0 result.1
    message_read type kind understood =
        let size : len ≡ length body = length-update_body ifp id d seqno metric channels k in
        subst (λ n. Reads link h (type ∷ n ∷ body) result.0 result.1) (sym size)
          (Reads-message link h result.0 type body result.1 kind (λ rest.
            subst (λ n. parse_message link (type ∷ n ∷ body ++ rest) n h ≡ result) size
              (understood rest)))

    update_message-Reads :
        Reads link h (update_message ifp id d seqno metric channels k) result.0 result.1
    unfolding update_message
    update_message-Reads = elim (Bool-cases (d.src_plen == 0)) [
      | inl y ↦
          subst (λ (b : Bool). Reads link h ((if b then 8 else 13) ∷ len ∷ body) result.0 result.1)
            (sym y)
            (message_read 8 refl (
              plain-Understood ifp link a id d seqno metric channels k ok h synced hop router
                (ground (arith, y))))
      | inr n ↦
          subst (λ (b : Bool). Reads link h ((if b then 8 else 13) ∷ len ∷ body) result.0 result.1)
            (sym n)
            (message_read 13 refl (
              specific-Understood ifp link a id d seqno metric channels k ok h synced hop router n))
    ]

  has_ipv4 : is_v4 d ≡ true → link.has_ipv4 ≡ true
  has_ipv4 v = elim reached [ inl n ↦ absurd (ground (arith, v)) | inr y ↦ y ]

  module _ (h : Heard) (synced : IsSynced k h) where
    abbrev named : Heard
    named = after_id link a id d k (after_nh link a id d k h)

    -- What the receiver has heard in the end.
    abbrev pub after_written : Heard
    after_written = after_update link a id d k named

    id-agrees : IdAgrees k.id (after_nh link a id d k h)
    id-agrees =
        id_same k.id h (after_nh link a id d k h)
          (if-same (λ g. g.router_id) (is_v4 d) _ h _ refl refl) synced.id

    named-kept :
        {A : Type 0} (f : Heard → A)
        → ((g : Heard) → f (record g { router_id = some (bytes 8 id) }) ≡ f g)
        → f named ≡ (if is_v4 d then f (record h { v4_nh = some (v4_address a) }) else f h)
    named-kept f other =
        if-same f (known_id k id || implies_id id d) (after_nh link a id d k h) _ _
          (ap-if f (is_v4 d) _ h) (other (after_nh link a id d k h) ∙ ap-if f (is_v4 d) _ h)

    prefix-kept : named.v6_prefix ≡ h.v6_prefix
    prefix-kept = named-kept (λ g. g.v6_prefix) (λ g. refl) ∙ if_idem (is_v4 d) h.v6_prefix

    pub nh-kept : named.v6_nh ≡ h.v6_nh
    nh-kept = named-kept (λ g. g.v6_nh) (λ g. refl) ∙ if_idem (is_v4 d) h.v6_nh

    router : after_written.router_id ≡ some (bytes 8 id)
    router = router_id-after link a id d k (after_nh link a id d k h) id-agrees

    hop-of :
        (g : Heard)
        → g.v4_nh ≡ (if is_v4 d then some (v4_address a) else h.v4_nh)
        → next_hop link (if is_v4 d then 1 else 2) g ≡ some (received_nh link a d g)
    unfolding next_hop
    hop-of g e = elim (Bool-cases (is_v4 d)) [
      | inl y ↦
          let heard : g.v4_nh ≡ some (v4_address a) = rw y at e in
          rw y (ap (λ (b : Bool). if b then g.v4_nh else none) (has_ipv4 y) ∙ heard)
      | inr n ↦ rw n refl
    ]

    hop : next_hop link (if is_v4 d then 1 else 2) after_written ≡ some (received_nh link a d named)
    hop = hop-of after_written (named-kept (λ g. g.v4_nh) (λ g. refl))

    same_update :
        sent_update ifp link a id d seqno metric channels k named
        ≡ sent_update ifp link a id d seqno metric channels k h
    same_update =
        ap
          (λ o. record (sent_update ifp link a id d seqno metric channels k h) {
            nexthop =
                if is_v4 d then v4_address a else (elim o [ none ↦ link.address | some nh ↦ nh ]);
          })
          nh-kept

    abbrev calls : List Call
    calls = update_route (sent_update ifp link a id d seqno metric channels k h) ∷ []

    -- The messages make one call, with the update that was sent.
    pub written_messages-Reads :
        Reads link h
          (written_messages ifp a id d seqno metric channels k)
          after_written
          (update_route (sent_update ifp link a id d seqno metric channels k h) ∷ [])
    unfolding written_messages
    written_messages-Reads =
        Reads-append link h (after_nh link a id d k h) after_written
          (if is_v4 d then nh_message k a else [])
          (id_message k id d ++ update_message ifp id d seqno metric channels k) [] calls
          (nh_message-Reads link a id d k h synced.nh)
          (Reads-append link (after_nh link a id d k h) named after_written (id_message k id d)
            (update_message ifp id d seqno metric channels k) [] calls
            (id_message-Reads link a id d k (after_nh link a id d k h))
            (subst
              (λ u.
                Reads link named (update_message ifp id d seqno metric channels k) after_written
                  (update_route u ∷ []))
              same_update
              (update_message-Reads named (prefix_same k.prefix h named prefix-kept synced.prefix)
                hop router)))

    heard_nh : after_written.v4_nh ≡ (if is_v4 d then some (v4_address a) else h.v4_nh)
    heard_nh = named-kept (λ g. g.v4_nh) (λ g. refl)

    nh-agrees : NhAgrees (if is_v4 d then some (bytes 4 a) else k.nh) after_written
    nh-agrees = elim (Bool-cases (is_v4 d)) [
      | inl y ↦
          let v4 : after_written.v4_nh ≡ some (v4_address a) =
            heard_nh ∙ ap (λ (b : Bool). if b then some (v4_address a) else h.v4_nh) y in
          subst (λ (b : Bool). NhAgrees (if b then some (bytes 4 a) else k.nh) after_written)
            (sym y) (v4, refl)
      | inr n ↦
          let old : after_written.v4_nh ≡ h.v4_nh =
            heard_nh ∙ ap (λ (b : Bool). if b then some (v4_address a) else h.v4_nh) n in
          subst (λ (b : Bool). NhAgrees (if b then some (bytes 4 a) else k.nh) after_written)
            (sym n) (nh_same k.nh h after_written old synced.nh)
    ]

    router-agrees : IdAgrees (if known_id k id then k.id else some (bytes 8 id)) after_written
    router-agrees = elim (Bool-cases (known_id k id)) [
      | inl y ↦
          let same : k.id ≡ some (bytes 8 id) =
            (known_router link a id d k (after_nh link a id d k h) id-agrees y).1 in
          subst (λ (b : Bool). IdAgrees (if b then k.id else some (bytes 8 id)) after_written)
            (sym y) (subst (λ o. IdAgrees o after_written) (sym same) (router, refl))
      | inr n ↦
          subst (λ (b : Bool). IdAgrees (if b then k.id else some (bytes 8 id)) after_written)
            (sym n) (router, refl)
    ]

    abbrev PrefixKnown : Bool → Type 0
    PrefixKnown b =
        PrefixAgrees (if b then some (bytes 16 d.prefix) else k.prefix)
          (record after_written { v6_prefix = if b then some d.prefix else named.v6_prefix })

    prefix-agrees : PrefixKnown (remembers k d)
    prefix-agrees = elim (Bool-cases (remembers k d)) [
      | inl y ↦
          let whole : bytes 16 d.prefix ≡ d.prefix = bytes_self 16 d.prefix ok.prefix.length_is in
          let v6 : v4mapped d.prefix ≡ false = ok.mapped ∙ ground (arith, y) in
          subst PrefixKnown (sym y) (ap some (sym whole), ap v4mapped whole ∙ v6)
      | inr n ↦ subst PrefixKnown (sym n) (prefix_same k.prefix h _ prefix-kept synced.prefix)
    ]

    pub known_after-IsSynced : IsSynced (known_after a id d k) after_written
    unfolding known_after
    known_after-IsSynced = record { nh = nh-agrees; id = router-agrees; prefix = prefix-agrees }
