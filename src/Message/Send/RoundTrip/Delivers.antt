-- ===== src/Message/Send/RoundTrip/Delivers.antt =====
-- message.c: the packets and the buffer hold the updates that were written so far.
use rabeld.Prelude.{
  ℕ, suc, ◌-◌, ◌≡◌, ◌⊎◌, inl, inr, refl, arith, true, false, ltb, ◌==◌, if◌then◌else◌, Bool-cases,
  List, [], ◌∷◌, ◌++◌, length, Option, none, ap, subst, sym, ◌∙◌,
}
use mathlib.Core.List.{append_assoc, append-nil}
use rabeld.Resend.{Destination}
use rabeld.Message.Parse.{Link, Heard, Call, update_route, nothing_heard, parse_loop}
use rabeld.Message.Parse.Loop.{Reads, Reads-append, Reads-nothing, Reads-end, read}
use rabeld.Message.Send.{Sender, Output, nothing_buffered, is_v4, flushbuf, ensure_space}
use rabeld.Message.Send.Room.{known_after, written_messages}
use rabeld.Message.Send.RoundTrip.{IsSynced}
use rabeld.Message.Send.RoundTrip.Sendable.{IsSendable}
use rabeld.Message.Send.RoundTrip.Fields.{sent_update}
use rabeld.Message.Send.RoundTrip.Written.{
  after_written, written_messages-Reads, known_after-IsSynced, nh-kept,
}

-- The calls that the packets make, one after the other.
unfoldable pub received : Link → List (List ℕ) → List Call
received link [] = []
received link (p ∷ ps) = (read link nothing_heard p).1 ++ received link ps

received-append :
    (link : Link) (ps qs : List (List ℕ))
    → received link (ps ++ qs) ≡ received link ps ++ received link qs
unfolding received
received-append link [] qs = refl
received-append link (p ∷ ps) qs =
    ap (λ t. (read link nothing_heard p).1 ++ t) (received-append link ps qs)
    ∙ sym (append_assoc (read link nothing_heard p).1 (received link ps) (received link qs))

-- The packets and the buffer hold the calls.
pub record Delivers (link : Link) (ps : List (List ℕ)) (o : Output) (calls : List Call)
    : Type 0 where
  pub buffered : List Call
  pub heard : Heard
  pub reads : Reads link nothing_heard o.sendbuf heard buffered
  pub synced : IsSynced o.known heard
  pub nh : heard.v6_nh ≡ none
  pub all : calls ≡ received link ps ++ buffered

abbrev pub empty_buffer : Output
empty_buffer = record { sendbuf = []; known = nothing_buffered }

pub empty_Delivers :
    (link : Link) (ps : List (List ℕ)) (calls : List Call)
    → calls ≡ received link ps
    → Delivers link ps empty_buffer calls
empty_Delivers link ps calls e = record {
  buffered = [];
  heard = nothing_heard;
  reads = Reads-nothing link nothing_heard;
  synced = record { nh = tt; id = tt; prefix = tt };
  nh = refl;
  all = e ∙ sym (append-nil (received link ps));
}

abbrev packet : List ℕ → List (List ℕ)
packet b = if length b == 0 then [] else b ∷ []

nothing_read : (link : Link) → (read link nothing_heard []).1 ≡ []
unfolding parse_loop
nothing_read link = refl

received-packet :
    (link : Link) (b : List ℕ) → received link (packet b) ≡ (read link nothing_heard b).1
unfolding received
received-packet link [] = sym (nothing_read link)
received-packet link (x ∷ b) =
    ap (received link) one ∙ append-nil (read link nothing_heard (x ∷ b)).1
  where
    positive : (n : ℕ) → suc n == 0 ≡ false
    positive n = ground arith

    one : packet (x ∷ b) ≡ (x ∷ b) ∷ []
    one = rw (positive (length b)) refl

module _ (link : Link) (ps : List (List ℕ)) (o : Output) (calls : List Call)
    (d : Delivers link ps o calls) where
  last_packet : (read link nothing_heard o.sendbuf).1 ≡ d.buffered
  last_packet = ap (λ r. r.1) (Reads-end link nothing_heard d.heard o.sendbuf d.buffered d.reads)

  pub calls-received : calls ≡ received link ps ++ (read link nothing_heard o.sendbuf).1
  calls-received = d.all ∙ ap (λ t. received link ps ++ t) (sym last_packet)

  flushbuf-Delivers : Delivers link (ps ++ (flushbuf o).1) (flushbuf o).0 calls
  unfolding flushbuf
  flushbuf-Delivers = empty_Delivers link (ps ++ packet o.sendbuf) calls (
      calls-received
      ∙ ap (λ t. received link ps ++ t) (sym (received-packet link o.sendbuf))
      ∙ sym (received-append link ps (packet o.sendbuf)))

  pub ensure_space-Delivers :
      (ifp : Sender) (space : ℕ)
      → Delivers link (ps ++ (ensure_space ifp space o).1) (ensure_space ifp space o).0 calls
  unfolding ensure_space
  ensure_space-Delivers ifp space = elim (Bool-cases (ltb (ifp.bufsize - length o.sendbuf) space)) [
    | inl y ↦ rw y flushbuf-Delivers
    | inr n ↦ rw n (subst (λ t. Delivers link t o calls) (sym (append-nil ps)) d)
  ]

module _ (ifp : Sender) (link : Link) (a id : List ℕ) (d : Destination) (seqno metric : ℕ)
    (channels : Option (List ℕ)) (ok : IsSendable ifp d seqno metric channels)
    (reached : (is_v4 d ≡ false) ⊎ (link.has_ipv4 ≡ true)) where
  -- The update that the receiver is to get.
  abbrev pub announced : Call
  announced =
      update_route
        (sent_update ifp link a id d seqno metric channels nothing_buffered nothing_heard)

  abbrev pub written : Output → Output
  written o = record {
    sendbuf = o.sendbuf ++ written_messages ifp a id d seqno metric channels o.known;
    known = known_after a id d o.known;
  }

  same_update :
      (h : Heard)
      → h.v6_nh ≡ none
      → update_route (sent_update ifp link a id d seqno metric channels nothing_buffered h)
        ≡ announced
  same_update h e =
      ap
        (λ o. update_route (
          sent_update ifp link a id d seqno metric channels nothing_buffered
            (record nothing_heard { v6_nh = o })))
        e

  pub written-Delivers :
      (ps : List (List ℕ)) (o : Output) (calls : List Call)
      → Delivers link ps o calls
      → Delivers link ps (written o) (calls ++ (announced ∷ []))
  written-Delivers ps o calls h = record {
    buffered = h.buffered ++ (announced ∷ []);
    heard = after_written ifp link a id d seqno metric channels o.known ok reached h.heard h.synced;
    reads =
        Reads-append link nothing_heard h.heard
          (after_written ifp link a id d seqno metric channels o.known ok reached h.heard h.synced)
          o.sendbuf (written_messages ifp a id d seqno metric channels o.known) h.buffered
          (announced ∷ []) h.reads
          (subst
            (λ u.
              Reads link h.heard (written_messages ifp a id d seqno metric channels o.known)
                (after_written ifp link a id d seqno metric channels o.known ok reached h.heard
                  h.synced)
                (u ∷ []))
            (same_update h.heard h.nh)
            (written_messages-Reads ifp link a id d seqno metric channels o.known ok reached h.heard
              h.synced));
    synced =
        known_after-IsSynced ifp link a id d seqno metric channels o.known ok reached h.heard
          h.synced;
    nh = nh-kept ifp link a id d seqno metric channels o.known ok reached h.heard h.synced ∙ h.nh;
    all =
        ap (λ t. t ++ (announced ∷ [])) h.all
        ∙ append_assoc (received link ps) h.buffered (announced ∷ []);
  }
