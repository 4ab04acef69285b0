-- ===== src/Message/Send/RoundTrip/Stream.antt =====
-- message.c: a sequence of updates, in as many packets as they take, is received as it was sent.
use rabeld.Prelude.{
  ℕ, ◌+◌, ◌≤◌, ◌≡◌, ◌⊎◌, inl, inr, refl, arith, Bool, true, false, leb, ◌||◌, not, if◌then◌else◌,
  min, List, [], ◌∷◌, ◌++◌, length, Option, some, none, ap, subst, sym, ◌∙◌,
}
use mathlib.Core.List.{append_assoc, append-nil}
use rabeld.Source.{infinity}
use rabeld.Resend.{Destination}
use rabeld.Message.Parse.{Link, Call, update_route, nothing_heard}
use rabeld.Message.Parse.Loop.{read}
use rabeld.Message.Send.{Sender, Output, nothing_buffered, is_v4, ensure_space, really_send_update}
use rabeld.Message.Send.Room.{roomy_update}
use rabeld.Message.Send.Roomy.{SourceFamily, really_send_update-roomy}
use rabeld.Message.Send.Bound.{roomy_update-FitsBuffer}
use rabeld.Message.Send.RoundTrip.Sendable.{IsSendable}
use rabeld.Message.Send.RoundTrip.Fields.{sent_update}
use rabeld.Message.Send.RoundTrip.Delivers.{
  received, Delivers, empty_buffer, empty_Delivers, calls-received, ensure_space-Delivers, written,
  written-Delivers,
}

-- The arguments of a call of really_send_update, with what output_filter returns for it.
pub record Announcement : Type 0 where
  pub add_metric : ℕ
  pub id : List ℕ
  pub to : Destination
  pub seqno : ℕ
  pub metric : ℕ
  pub channels : Option (List ℕ)

module _ (ifp : Sender) where
  abbrev pub sent_metric : Announcement → ℕ
  sent_metric u = min (u.metric + u.add_metric) infinity

  abbrev pub sent_channels : Announcement → Option (List ℕ)
  sent_channels u = if ifp.channel_diversity then u.channels else none

  abbrev pub send_one : Announcement → Output → Option (Output × List (List ℕ))
  send_one u o = really_send_update ifp u.add_metric u.id u.to u.seqno u.metric u.channels o

  abbrev and_later :
      List (List ℕ) → Option (Output × List (List ℕ)) → Option (Output × List (List ℕ))
  and_later ps none = none
  and_later ps (some (o, qs)) = some (o, ps ++ qs)

  -- The calls of really_send_update in turn.
  unfoldable pub send_each : List Announcement → Output → Option (Output × List (List ℕ))
  send_each [] o = some (o, [])
  send_each (u ∷ us) o = elim (send_one u o) [
    | none ↦ none
    | some (o', ps) ↦ and_later ps (send_each us o')
  ]

  abbrev roomy_one : Announcement → Output → Output × List (List ℕ)
  roomy_one u o = roomy_update ifp u.add_metric u.id u.to u.seqno u.metric u.channels o

  unfoldable roomy_each : List Announcement → Output → Output × List (List ℕ)
  roomy_each [] o = (o, [])
  roomy_each (u ∷ us) o =
      let (o', ps) = roomy_one u o in let (o'', qs) = roomy_each us o' in (o'', ps ++ qs)

module _ (ifp : Sender) (link : Link) where
  abbrev announced_by : List ℕ → Announcement → List Call
  announced_by a u =
      update_route (
        sent_update ifp link a u.id u.to u.seqno (sent_metric ifp u) (sent_channels ifp u)
          nothing_buffered nothing_heard)
      ∷ []

  -- What a neighbour should receive: nothing on an interface that is down, of a destination that is
  -- filtered, or of an IPv4 one from an interface without an IPv4 address.
  unfoldable pub expected : Announcement → List Call
  expected u =
      if not ifp.up || leb infinity u.add_metric
      then []
      else (if is_v4 u.to
          then (elim (ifp.ipv4) [ none ↦ [] | some a ↦ announced_by a u ])
          else announced_by [] u)

  unfoldable pub expected_all : List Announcement → List Call
  expected_all [] = []
  expected_all (u ∷ us) = expected u ++ expected_all us

  pub record CanSend (u : Announcement) : Type 0 where
    pub sendable : IsSendable ifp u.to u.seqno (sent_metric ifp u) (sent_channels ifp u)
    pub reached : (is_v4 u.to ≡ false) ⊎ (link.has_ipv4 ≡ true)

  abbrev pub AllCanSend : List Announcement → Type 0
  AllCanSend [] = Unit
  AllCanSend (u ∷ us) = CanSend u × AllCanSend us

  module _ (ps : List (List ℕ)) (calls : List Call) where
    abbrev After : Output × List (List ℕ) → List Call → Type 0
    After r e = Delivers link (ps ++ r.1) r.0 (calls ++ e)

    either_way :
        (b : Bool) (x y : Output × List (List ℕ)) (e f : List Call)
        → (b ≡ true → After x e)
        → (b ≡ false → After y f)
        → After (if b then x else y) (if b then e else f)
    either_way true x y e f p q = p refl
    either_way false x y e f p q = q refl

    optional_way :
        (c : Option (List ℕ)) (x : Output × List (List ℕ)) (g : List ℕ → Output × List (List ℕ))
        (e : List ℕ → List Call)
        → After x []
        → ((a : List ℕ) → After (g a) (e a))
        → After (elim c [ none ↦ x | some a ↦ g a ]) (elim c [ none ↦ [] | some a ↦ e a ])
    optional_way none x g e p q = p
    optional_way (some a) x g e p q = q a

    unchanged : (r : Output × List (List ℕ)) → Delivers link (ps ++ r.1) r.0 calls → After r []
    unchanged r h = subst (λ c. Delivers link (ps ++ r.1) r.0 c) (sym (append-nil calls)) h

    roomy_one-Delivers :
        (u : Announcement) (o : Output)
        → CanSend u
        → Delivers link ps o calls
        → After (roomy_one ifp u o) (expected u)
    unfolding roomy_update expected
    roomy_one-Delivers u o can h =
        either_way (not ifp.up || leb infinity u.add_metric) (o, []) _ [] _
          (λ stop. unchanged (o, []) (subst (λ t. Delivers link t o calls) (sym (append-nil ps)) h))
          (λ go.
            either_way (is_v4 u.to) _ (sent []) _ (announced_by [] u)
              (λ v4.
                optional_way (ifp.ipv4) (ensure_space ifp 78 o) sent (λ a. announced_by a u)
                  (unchanged (ensure_space ifp 78 o) roomy) there)
              (λ v6. there []))
      where
        roomy : Delivers link (ps ++ (ensure_space ifp 78 o).1) (ensure_space ifp 78 o).0 calls
        roomy = ensure_space-Delivers link ps o calls h ifp 78

        sent : List ℕ → Output × List (List ℕ)
        sent a = (
          written ifp link a u.id u.to u.seqno (sent_metric ifp u) (sent_channels ifp u)
              can.sendable can.reached (ensure_space ifp 78 o).0,
          (ensure_space ifp 78 o).1,
        )

        there : (a : List ℕ) → After (sent a) (announced_by a u)
        there a =
            written-Delivers ifp link a u.id u.to u.seqno (sent_metric ifp u) (sent_channels ifp u)
              can.sendable can.reached (ps ++ (ensure_space ifp 78 o).1) (ensure_space ifp 78 o).0
              calls roomy

  roomy_each-Delivers :
      (us : List Announcement) (ps : List (List ℕ)) (o : Output) (calls : List Call)
      → AllCanSend us
      → Delivers link ps o calls
      → Delivers link
          (ps ++ (roomy_each ifp us o).1)
          (roomy_each ifp us o).0
          (calls ++ expected_all us)
  unfolding roomy_each expected_all
  roomy_each-Delivers [] ps o calls can h =
      subst (λ t. Delivers link t o (calls ++ [])) (sym (append-nil ps))
        (subst (λ c. Delivers link ps o c) (sym (append-nil calls)) h)
  roomy_each-Delivers (u ∷ us) ps o calls can h =
      let rest =
        roomy_each-Delivers us (ps ++ (roomy_one ifp u o).1) (roomy_one ifp u o).0
          (calls ++ expected u) can.1 (roomy_one-Delivers ps calls u o can.0 h) in
      subst
        (λ t.
          Delivers link t (roomy_each ifp us (roomy_one ifp u o).0).0
            (calls ++ (expected u ++ expected_all us)))
        (append_assoc ps (roomy_one ifp u o).1 (roomy_each ifp us (roomy_one ifp u o).0).1)
        (subst
          (λ c.
            Delivers link
              ((ps ++ (roomy_one ifp u o).1) ++ (roomy_each ifp us (roomy_one ifp u o).0).1)
              (roomy_each ifp us (roomy_one ifp u o).0).0 c)
          (append_assoc calls (expected u) (expected_all us)) rest)

  received-roomy_each :
      (us : List Announcement)
      → AllCanSend us
      → received link (roomy_each ifp us empty_buffer).1
          ++ received link ((roomy_each ifp us empty_buffer).0.sendbuf ∷ [])
        ≡ expected_all us
  unfolding received
  received-roomy_each us can =
      ap (λ t. received link (roomy_each ifp us empty_buffer).1 ++ t)
        (append-nil (read link nothing_heard (roomy_each ifp us empty_buffer).0.sendbuf).1)
      ∙ sym (
          calls-received link (roomy_each ifp us empty_buffer).1 (roomy_each ifp us empty_buffer).0
            (expected_all us)
            (roomy_each-Delivers us [] empty_buffer [] can (empty_Delivers link [] [] refl)))

  -- What CanSend says of an update is enough for really_send_update.
  family_of :
      (u : Announcement)
      → IsSendable ifp u.to u.seqno (sent_metric ifp u) (sent_channels ifp u)
      → SourceFamily u.to
  family_of u s = elim (s.source_family) [
    | inl v6 ↦ inl v6
    | inr w ↦ elim w [ inl plain ↦ inr (inl plain) | inr (m, long) ↦ inr (inr long) ]
  ]

  short_source :
      (u : Announcement)
      → IsSendable ifp u.to u.seqno (sent_metric ifp u) (sent_channels ifp u)
      → u.to.src_plen ≤ 128
  short_source u s = elim (s.source) [ inl plain ↦ omega (arith, plain) | inr p ↦ p.short ]

  module _ (big : 78 ≤ ifp.bufsize) where
    module _ (u : Announcement) (o : Output)
        (s : IsSendable ifp u.to u.seqno (sent_metric ifp u) (sent_channels ifp u))
        (full : length o.sendbuf ≤ ifp.bufsize) where
      one : send_one ifp u o ≡ some (roomy_one ifp u o)
      one =
          really_send_update-roomy ifp u.add_metric u.id u.to u.seqno u.metric u.channels o big full
            s.prefix.short (short_source u s) (family_of u s) s.channels_fit

      still : length (roomy_one ifp u o).0.sendbuf ≤ ifp.bufsize
      still =
          (roomy_update-FitsBuffer ifp u.add_metric u.id u.to u.seqno u.metric u.channels o big full
            s.prefix.short (short_source u s) s.channels_fit).buffer

    send_each-roomy :
        (us : List Announcement) (o : Output)
        → AllCanSend us
        → length o.sendbuf ≤ ifp.bufsize
        → send_each ifp us o ≡ some (roomy_each ifp us o)
    unfolding send_each roomy_each
    send_each-roomy [] o can full = refl
    send_each-roomy (u ∷ us) o can full =
        let s : IsSendable ifp u.to u.seqno (sent_metric ifp u) (sent_channels ifp u) =
          can.0.sendable in
        rw (send_each, roomy_each, one u o s full)
          (ap (and_later ifp (roomy_one ifp u o).1)
            (send_each-roomy us (roomy_one ifp u o).0 can.1 (still u o s full)))

  -- Whatever sequence of updates an interface with an empty buffer is given, really_send_update sends
  -- them, and a neighbour that reads all the packets that flushbuf made and then what is in the buffer
  -- calls update_route for those updates that are not filtered, in their order, each with the fields
  -- that were sent. The buffer has 78 bytes or more, the updates have prefixes of 16 bytes with zeros
  -- after their length, an IPv4 prefix of 96 bits or more with a source prefix of the same kind,
  -- numbers below 2 ^ 16 and at most 20 channels, and the neighbour has an IPv4 address if any of them
  -- is of an IPv4 prefix.
  pub received-send_each :
      (us : List Announcement)
      → 78 ≤ ifp.bufsize
      → AllCanSend us
      → (r : Output × List (List ℕ)) × (send_each ifp us empty_buffer ≡ some r)
        × (received link r.1 ++ received link (r.0.sendbuf ∷ []) ≡ expected_all us)
  received-send_each us big can = (
    roomy_each ifp us empty_buffer,
    send_each-roomy big us empty_buffer can (omega arith),
    received-roomy_each us can,
  )
