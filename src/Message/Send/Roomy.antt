-- ===== src/Message/Send/Roomy.antt =====
-- message.c: really_send_update with a buffer of 78 bytes or more.
use rabeld.Prelude.{
  ℕ, ◌+◌, ◌≤◌, ◌≡◌, ◌⊎◌, refl, arith, inl, inr, Bool, true, false, leb, ◌||◌, not, if◌then◌else◌,
  min, List, [], ◌++◌, length, Option, none, some, ap, ◌∙◌,
}
use mathlib.Core.List.{append-nil}
use rabeld.Source.{infinity}
use rabeld.Resend.{Destination}
use rabeld.Message.Send.{
  Sender, Output, is_v4, channel_bytes, send_messages, overruns, ensure_space, really_send_update,
}
use rabeld.Message.Send.Room.{roomy_messages, roomy_update}
use rabeld.Message.Send.Bound.{FitsBuffer, ensure_space-room, roomy_update-FitsBuffer}
use rabeld.Message.Send.Steps.{send_messages-roomy}

abbrev extend : List (List ℕ) → Output × List (List ℕ) → Output × List (List ℕ)
extend packets (o, more) = (o, packets ++ more)

-- The branches of really_send_update, with what is sent in them.
either_way :
    {X : Type 0} (stop v4 over : Bool) (ipv4 : Option (List ℕ)) (same silent : X) (f g : List ℕ → X)
    → over ≡ false
    → ((a : List ℕ) → f a ≡ g a)
    → (if stop
        then some same
        else (if v4
            then (elim ipv4 [ none ↦ some silent | some a ↦ if over then none else some (f a) ])
            else some (f [])))
      ≡ some (
          if stop
          then same
          else (if v4 then (elim ipv4 [ none ↦ silent | some a ↦ g a ]) else g []))
either_way true v4 over ipv4 same silent f g e h = refl
either_way false true over none same silent f g e h = refl
either_way false true over (some a) same silent f g e h = rw e (ap some (h a))
either_way false false over ipv4 same silent f g e h = ap some (h [])

-- A source prefix that is sent with an IPv4 prefix has 96 bits or more.
abbrev pub SourceFamily : Destination → Type 0
SourceFamily d = (is_v4 d ≡ false) ⊎ ((d.src_plen ≡ 0) ⊎ (96 ≤ d.src_plen))

no_overrun : (d : Destination) → SourceFamily d → overruns d ≡ false
no_overrun d (inl v6) = rw v6 refl
no_overrun d (inr (inl plain)) = ground (arith, plain)
no_overrun d (inr (inr long)) = ground (arith, long)

module _ (ifp : Sender) (add_metric : ℕ) (id : List ℕ) (d : Destination) (seqno metric : ℕ)
    (channels : Option (List ℕ)) (o : Output) (big : 78 ≤ ifp.bufsize)
    (full : length o.sendbuf ≤ ifp.bufsize) (short : d.plen ≤ 128) (source_short : d.src_plen ≤ 128)
    (family : SourceFamily d)
    (fits : length (channel_bytes (if ifp.channel_diversity then channels else none)) ≤ 22) where
  abbrev carried : Option (List ℕ)
  carried = if ifp.channel_diversity then channels else none

  sent :
      (a : List ℕ)
      → send_messages ifp a id d seqno
          (min (metric + add_metric) infinity)
          carried
          (ensure_space ifp 78 o).0
        ≡ (
          roomy_messages ifp a id d seqno
              (min (metric + add_metric) infinity)
              carried
              (ensure_space ifp 78 o).0,
          [],
        )
  sent a =
      send_messages-roomy ifp a id d seqno (min (metric + add_metric) infinity) carried short
        source_short fits (ensure_space ifp 78 o).0 (ensure_space-room ifp o big full).0

  all_sent :
      (a : List ℕ)
      → ◌≡◌ {A = Output × List (List ℕ)}
          (
            (send_messages ifp a id d seqno
                (min (metric + add_metric) infinity)
                carried
                (ensure_space ifp 78 o).0).0,
            (ensure_space ifp 78 o).1
                ++ (send_messages ifp a id d seqno
                    (min (metric + add_metric) infinity)
                    carried
                    (ensure_space ifp 78 o).0).1,
          )
          (
            roomy_messages ifp a id d seqno
                (min (metric + add_metric) infinity)
                carried
                (ensure_space ifp 78 o).0,
            (ensure_space ifp 78 o).1,
          )
  all_sent a =
      ap (λ (p : Output × List (List ℕ)). extend (ensure_space ifp 78 o).1 p) (sent a)
      ∙ ap
          (λ t. (
            roomy_messages ifp a id d seqno (min (metric + add_metric) infinity) carried
                (ensure_space ifp 78 o).0,
            t,
          ))
          (append-nil (ensure_space ifp 78 o).1)

  pub really_send_update-roomy :
      really_send_update ifp add_metric id d seqno metric channels o
      ≡ some (roomy_update ifp add_metric id d seqno metric channels o)
  unfolding really_send_update roomy_update
  really_send_update-roomy =
      either_way (not ifp.up || leb infinity add_metric) (is_v4 d) (overruns d) ifp.ipv4 (o, [])
        (ensure_space ifp 78 o)
        (λ a. extend (ensure_space ifp 78 o).1 (
          send_messages ifp a id d seqno (min (metric + add_metric) infinity) carried
            (ensure_space ifp 78 o).0))
        (λ a. (
          roomy_messages ifp a id d seqno (min (metric + add_metric) infinity) carried
              (ensure_space ifp 78 o).0,
          (ensure_space ifp 78 o).1,
        ))
        (no_overrun d family) all_sent

  -- An update never overruns the buffer of its interface, and no packet is longer than the buffer:
  -- where the buffer has 78 bytes at least and was within its size before, really_send_update comes to
  -- a result, in which it is within its size. The prefix lengths are up to 128, that of a source prefix
  -- with an IPv4 prefix is 0 or at least 96, and at most 20 channels are sent.
  pub really_send_update-FitsBuffer :
      (r : Output × List (List ℕ)) × (really_send_update ifp add_metric id d seqno metric channels o
        ≡ some r)
      × FitsBuffer ifp.bufsize r
  really_send_update-FitsBuffer = (
    roomy_update ifp add_metric id d seqno metric channels o,
    really_send_update-roomy,
    roomy_update-FitsBuffer ifp add_metric id d seqno metric channels o big full short source_short
        fits,
  )
