-- ===== src/Message/Send/RoundTrip/Fields.antt =====
-- message.c: the whole message of an update, from its fields to the call of update_route.
use rabeld.Prelude.{
  ℕ, ◌+◌, ◌-◌, ◌*◌, ◌/◌, ◌%◌, ◌≤◌, ◌≡◌, ◌⊎◌, inl, inr, refl, arith, true, false, ◌==◌, ◌&&◌, not,
  if◌then◌else◌, Bool-cases, List, [], ◌∷◌, ◌++◌, drop, length, length-append, Option, some, none,
  ap, sym, ◌∙◌,
}
use mathlib.Core.List.{append_assoc}
use rabeld.Util.Prefix.{zeroes, v4mapped}
use rabeld.Resend.{Destination}
use rabeld.Message.Prefix.{bytes, network_prefix}
use rabeld.Message.Prefix.Laws.{IsPrefix, length-bytes, network_prefix-whole, network_prefix-v4}
use rabeld.Message.SubTlv.{parse_update_subtlv}
use rabeld.Message.Parse.{
  Link, Heard, Update, update_route, parse_message, parse_update, parse_update_src_specific,
  update_prefix, remember, update_prefix, next_hop, long_plen,
}
use rabeld.Message.Send.{
  Sender, Buffered, is_v4, omitted_bytes, real_plen, real_prefix, size_of, channel_bytes, flags_of,
  remembers, known_id, implies_id, update_body, update_length, src_plen_byte,
}
use rabeld.Message.Send.RoundTrip.{PrefixAgrees}
use rabeld.Message.Send.RoundTrip.Update.{header, prefix_read}
use rabeld.Message.Send.RoundTrip.State.{after_update, remember-flags}
use rabeld.Message.Send.RoundTrip.Body.{
  received_channels, channels_read, parse_update-header, parse_update_src_specific-header,
}
use rabeld.Message.Send.RoundTrip.Sendable.{
  ntohs-htons, drop-header, IsSendable, omitted_bytes-le, received_nh, length-channel_bytes,
}

module _ (ifp : Sender) (link : Link) (a id : List ℕ) (d : Destination) (seqno metric : ℕ)
    (channels : Option (List ℕ)) (k : Buffered) where
  -- The update as its receiver should understand it.
  abbrev pub sent_update : Heard → Update
  sent_update h = record {
    id = bytes 8 id;
    prefix = d.prefix;
    plen = d.plen;
    src_prefix = if d.src_plen == 0 then zeroes else d.src_prefix;
    src_plen = d.src_plen;
    seqno = seqno;
    metric = metric;
    interval = (ifp.update_interval + 5) / 10;
    nexthop = received_nh link a d h;
    channels = some (received_channels link.faraway metric channels);
  }

  module _ (ok : IsSendable ifp d seqno metric channels) (h : Heard)
      (synced : PrefixAgrees k.prefix h)
      (hop : next_hop link (if is_v4 d then 1 else 2) (after_update link a id d k h)
        ≡ some (received_nh link a d h))
      (router : (after_update link a id d k h).router_id ≡ some (bytes 8 id)) where
    abbrev omitted : ℕ
    omitted = omitted_bytes k d

    abbrev size : ℕ
    size = size_of (real_plen d d.plen)

    abbrev sent_prefix : List ℕ
    sent_prefix = bytes (size - omitted) (drop omitted (real_prefix d d.prefix))

    abbrev sent_source : List ℕ
    sent_source =
        if d.src_plen == 0
        then []
        else bytes (size_of (real_plen d d.src_plen)) (real_prefix d d.src_prefix)

    abbrev body : List ℕ
    body = update_body ifp omitted id d seqno metric channels k

    abbrev len : ℕ
    len = update_length omitted d channels

    abbrev Understood : ℕ → ℕ → List ℕ → Type 0
    Understood type n rest =
        parse_message link (type ∷ n ∷ body ++ rest) n h
        ≡ (after_update link a id d k h, update_route (sent_update h) ∷ [])

    abbrev ae : ℕ
    ae = if is_v4 d then 1 else 2

    abbrev flags : ℕ
    flags = if d.src_plen == 0 then flags_of k id d else src_plen_byte d

    -- The message as its receiver sees it: the fixed fields, the prefix, and what follows.
    abbrev laid_out : ℕ → List ℕ → List ℕ
    laid_out type p =
        header type flags len ((ifp.update_interval + 5) / 10 / 256 % 256)
          ((ifp.update_interval + 5) / 10 % 256) (seqno / 256 % 256) (seqno % 256)
          (metric / 256 % 256) (metric % 256) ae (real_plen d d.plen) omitted p

    body-laid_out :
        (type : ℕ) (rest : List ℕ)
        → type ∷ len ∷ body ++ rest
          ≡ laid_out type (sent_prefix ++ (sent_source ++ (channel_bytes channels ++ rest)))
    unfolding update_body
    body-laid_out type rest = ap (laid_out type) (
        append_assoc sent_prefix (sent_source ++ channel_bytes channels) rest
        ∙ ap (λ t. sent_prefix ++ t) (append_assoc sent_source (channel_bytes channels) rest))

    family : ae == 0 ≡ false
    family = ground arith

    -- The prefix, and how many bytes of it there are.
    prefix-laid_out :
        (type : ℕ) (p : List ℕ)
        → update_prefix (laid_out type (sent_prefix ++ p)) len h ≡ some (d.prefix, size - omitted)
    prefix-laid_out type p =
        prefix_read type flags len ((ifp.update_interval + 5) / 10 / 256 % 256)
          ((ifp.update_interval + 5) / 10 % 256) (seqno / 256 % 256) (seqno % 256)
          (metric / 256 % 256) (metric % 256) d k h p ok.prefix ok.mapped synced
          (omega (arith, omitted_bytes-le k d))

    long_plen-real :
        (n : ℕ) → n ≤ 128 → (is_v4 d ≡ false) ⊎ (96 ≤ n) → long_plen ae (real_plen d n) ≡ n
    long_plen-real n le (inl v) = rw v (omega arith)
    long_plen-real n le (inr v) = elim (Bool-cases (is_v4 d)) [
      | inl y ↦ rw y (omega arith)
      | inr y ↦ rw y (omega arith)
    ]

    v4-long : (is_v4 d ≡ false) ⊎ (96 ≤ d.plen)
    unfolding is_v4
    v4-long = elim (Bool-cases (is_v4 d)) [ inr n ↦ inl n | inl y ↦ inr (ground arith) ]

    after-laid_out :
        (type n skip : ℕ) (p q : List ℕ)
        → length p ≡ n
        → skip ≡ 12 + n
        → drop skip (laid_out type (p ++ q)) ≡ q
    after-laid_out type n skip p q e es =
        drop-header type flags len ((ifp.update_interval + 5) / 10 / 256 % 256)
          ((ifp.update_interval + 5) / 10 % 256) (seqno / 256 % 256) (seqno % 256)
          (metric / 256 % 256) (metric % 256) ae (real_plen d d.plen) omitted p q n skip e
          (omega (arith, es))

    -- The channels, where they stand at the end.
    channels-laid_out :
        (rest t : List ℕ) (n : ℕ)
        → t ≡ channel_bytes channels ++ rest
        → n ≡ length (channel_bytes channels)
        → parse_update_subtlv link.faraway (metric / 256 % 256 * 256 + metric % 256) t n
          ≡ some (received_channels link.faraway metric channels)
    channels-laid_out rest t n et en =
        ap (λ m. parse_update_subtlv link.faraway m t n) (ntohs-htons metric ok.metric_fits)
        ∙ ap (λ u. parse_update_subtlv link.faraway metric u n) et
        ∙ ap (parse_update_subtlv link.faraway metric (channel_bytes channels ++ rest)) en
        ∙ channels_read link.faraway metric channels rest ok.channels_fit

    -- The fields, put together.
    abbrev received : List ℕ → ℕ → Update
    received src_prefix src_plen = record {
      id = bytes 8 id;
      prefix = d.prefix;
      plen = long_plen ae (real_plen d d.plen);
      src_prefix = src_prefix;
      src_plen = src_plen;
      seqno = seqno / 256 % 256 * 256 + seqno % 256;
      metric = metric / 256 % 256 * 256 + metric % 256;
      interval =
          (ifp.update_interval + 5) / 10 / 256 % 256 * 256 + (ifp.update_interval + 5) / 10 % 256;
      nexthop = received_nh link a d h;
      channels = some (received_channels link.faraway metric channels);
    }

    received-sent :
        (src_prefix : List ℕ) (src_plen : ℕ)
        → src_prefix ≡ (if d.src_plen == 0 then zeroes else d.src_prefix)
        → src_plen ≡ d.src_plen
        → received src_prefix src_plen ≡ sent_update h
    received-sent src_prefix src_plen ep el =
        ap (λ p. received p src_plen) ep
        ∙ ap (received (if d.src_plen == 0 then zeroes else d.src_prefix)) el
        ∙ ap
            (λ n. record (received (if d.src_plen == 0 then zeroes else d.src_prefix) d.src_plen) {
              seqno = n;
            })
            (ntohs-htons seqno ok.seqno_fits)
        ∙ ap
            (λ n. record (received (if d.src_plen == 0 then zeroes else d.src_prefix) d.src_plen) {
              seqno = seqno;
              metric = n;
            })
            (ntohs-htons metric ok.metric_fits)
        ∙ ap
            (λ n. record (sent_update h) { plen = long_plen ae (real_plen d d.plen); interval = n })
            (ntohs-htons ((ifp.update_interval + 5) / 10) ok.interval_fits)
        ∙ ap (λ n. record (sent_update h) { plen = n })
            (long_plen-real d.plen ok.prefix.short v4-long)

    module _ (z : d.src_plen ≡ 0) where
      plain : d.src_plen == 0 ≡ true
      plain = ground arith

      no_source : sent_source ≡ []
      no_source = rw plain refl

      len-plain : len - (10 + (size - omitted)) ≡ length (channel_bytes channels)
      len-plain = rw plain (omega (arith, length-channel_bytes channels, omitted_bytes-le k d))

      flags-plain : flags ≡ flags_of k id d
      flags-plain = rw plain refl

      channels-plain :
          (rest : List ℕ)
          → drop
              (2 + (10 + (size - omitted)))
              (laid_out 8 (sent_prefix ++ (sent_source ++ (channel_bytes channels ++ rest))))
            ≡ channel_bytes channels ++ rest
      channels-plain rest =
          after-laid_out 8 (size - omitted) (2 + (10 + (size - omitted))) sent_prefix
            (sent_source ++ (channel_bytes channels ++ rest))
            (length-bytes (size - omitted) (drop omitted (real_prefix d d.prefix))) (omega arith)
          ∙ ap (λ t. t ++ (channel_bytes channels ++ rest)) no_source

      pub plain-Understood : (rest : List ℕ) → Understood 8 len rest
      unfolding parse_message
      plain-Understood rest =
          ap (λ m. parse_update link m len h) (body-laid_out 8 rest)
          ∙ parse_update-header link h (after_update link a id d k h) len ae flags
              (real_plen d d.plen) omitted ((ifp.update_interval + 5) / 10 / 256 % 256)
              ((ifp.update_interval + 5) / 10 % 256) (seqno / 256 % 256) (seqno % 256)
              (metric / 256 % 256) (metric % 256)
              (sent_prefix ++ (sent_source ++ (channel_bytes channels ++ rest))) d.prefix
              (size - omitted) (bytes 8 id) (received_nh link a d h)
              (some (received_channels link.faraway metric channels))
              (omega (arith, omitted_bytes-le k d)) family
              (prefix-laid_out 8 (sent_source ++ (channel_bytes channels ++ rest)))
              (ap (λ x. remember ae x d.prefix h) flags-plain
                ∙ remember-flags link a id d k h ok.prefix.short)
              router hop (channels-laid_out rest _ _ (channels-plain rest) len-plain)
          ∙ ap (λ u. (after_update link a id d k h, update_route u ∷ []))
              (received-sent zeroes 0 (rw plain refl) (sym z))

    module _ (z : d.src_plen == 0 ≡ false) where
      source_there :
          sent_source ≡ bytes (size_of (real_plen d d.src_plen)) (real_prefix d d.src_prefix)
      source_there = rw z refl

      length-source : length sent_source ≡ size_of (real_plen d d.src_plen)
      length-source =
          ap (λ p. length p) source_there
          ∙ length-bytes (size_of (real_plen d d.src_plen)) (real_prefix d d.src_prefix)

      source_is : IsPrefix d.src_prefix d.src_plen
      source_is = elim (ok.source) [ inl e ↦ absurd (ground (arith, z)) | inr s ↦ s ]

      source-v4 : is_v4 d ≡ true → (v4mapped d.src_prefix ≡ true) × (96 ≤ d.src_plen)
      source-v4 v = elim (ok.source_family) [
        | inl n ↦ absurd (ground (arith, v))
        | inr s ↦ elim s [ inl e ↦ absurd (ground (arith, z)) | inr t ↦ t ]
      ]

      byte : src_plen_byte d ≡ real_plen d d.src_plen
      byte = elim (Bool-cases (is_v4 d)) [
        | inl v ↦ rw v (omega (arith, (source-v4 v).1, source_is.short))
        | inr v ↦ rw v refl
      ]

      flags-specific : flags ≡ real_plen d d.src_plen
      flags-specific = rw z byte

      unchanged : after_update link a id d k h ≡ h
      unchanged =
          let r : remembers k d ≡ false = ground (arith, z) in
          let i : not (known_id k id) && implies_id id d ≡ false = ground (arith, z) in
          rw (r, i) refl

      source_long : (is_v4 d ≡ false) ⊎ (96 ≤ d.src_plen)
      source_long = elim (Bool-cases (is_v4 d)) [ inr n ↦ inl n | inl y ↦ inr ((source-v4 y).1) ]

      source_read :
          (rest : List ℕ) (n : ℕ)
          → size_of (real_plen d d.src_plen) ≤ n
          → network_prefix ae
              (some (real_plen d d.src_plen))
              0
              (bytes (size_of (real_plen d d.src_plen)) (real_prefix d d.src_prefix) ++ rest)
              none
              n
            ≡ some (d.src_prefix, size_of (real_plen d d.src_plen))
      source_read rest n room = elim (Bool-cases (is_v4 d)) [
        | inl v ↦
            let fits : size_of (d.src_plen - 96) ≤ n = rw v at room in
            rw v (
              network_prefix-v4 d.src_prefix rest d.src_plen n none source_is (source-v4 v).1
                (source-v4 v).0 fits)
        | inr v ↦
            let fits : size_of d.src_plen ≤ n = rw v at room in
            rw v (network_prefix-whole d.src_prefix rest d.src_plen n none source_is fits)
      ]

      abbrev parsed : ℕ
      parsed = 10 + (size - omitted) + size_of (real_plen d d.src_plen)

      len-specific : len ≡ parsed + length (channel_bytes channels)
      len-specific = rw z (omega (arith, length-channel_bytes channels, omitted_bytes-le k d))

      channels-specific :
          (rest : List ℕ)
          → drop
              (2 + parsed)
              (laid_out 13 (sent_prefix ++ (sent_source ++ (channel_bytes channels ++ rest))))
            ≡ channel_bytes channels ++ rest
      channels-specific rest =
          ap (λ t. drop (2 + parsed) (laid_out 13 t))
            (sym (append_assoc sent_prefix sent_source (channel_bytes channels ++ rest)))
          ∙ after-laid_out 13 (length (sent_prefix ++ sent_source)) (2 + parsed)
              (sent_prefix ++ sent_source) (channel_bytes channels ++ rest) refl
              (omega (
                arith,
                length-append sent_prefix sent_source,
                length-source,
                length-bytes (size - omitted) (drop omitted (real_prefix d d.prefix)),
              ))

      source-laid_out :
          (rest : List ℕ)
          → network_prefix ae
              (some flags)
              0
              (drop
                (12 + (size - omitted))
                (laid_out 13 (sent_prefix ++ (sent_source ++ (channel_bytes channels ++ rest)))))
              none
              (len - (10 + (size - omitted)))
            ≡ some (d.src_prefix, size_of (real_plen d d.src_plen))
      source-laid_out rest =
          ap
            (λ x.
              network_prefix ae (some x) 0
                (drop (12 + (size - omitted))
                  (laid_out 13 (sent_prefix ++ (sent_source ++ (channel_bytes channels ++ rest)))))
                none (len - (10 + (size - omitted))))
            flags-specific
          ∙ ap
              (λ t.
                network_prefix ae (some (real_plen d d.src_plen)) 0 t none
                  (len - (10 + (size - omitted))))
              (after-laid_out 13 (size - omitted) (12 + (size - omitted)) sent_prefix
                  (sent_source ++ (channel_bytes channels ++ rest))
                  (length-bytes (size - omitted) (drop omitted (real_prefix d d.prefix))) refl
                ∙ ap (λ t. t ++ (channel_bytes channels ++ rest)) source_there)
          ∙ source_read (channel_bytes channels ++ rest) (len - (10 + (size - omitted)))
              (omega (arith, len-specific))

      pub specific-Understood : (rest : List ℕ) → Understood 13 len rest
      unfolding parse_message
      specific-Understood rest =
          ap (λ m. parse_update_src_specific link m len h) (body-laid_out 13 rest)
          ∙ parse_update_src_specific-header link h h len ae flags (real_plen d d.plen) omitted
              ((ifp.update_interval + 5) / 10 / 256 % 256) ((ifp.update_interval + 5) / 10 % 256)
              (seqno / 256 % 256) (seqno % 256) (metric / 256 % 256) (metric % 256)
              (sent_prefix ++ (sent_source ++ (channel_bytes channels ++ rest))) d.prefix
              (size - omitted) (bytes 8 id) (received_nh link a d h)
              (some (received_channels link.faraway metric channels)) d.src_prefix
              (size_of (real_plen d d.src_plen)) (omega (arith, omitted_bytes-le k d)) family
              (prefix-laid_out 13 (sent_source ++ (channel_bytes channels ++ rest)))
              (source-laid_out rest) (ap (λ g. g.router_id) (sym unchanged) ∙ router)
              (ap (next_hop link ae) (sym unchanged) ∙ hop)
              (channels-laid_out rest _ _ (channels-specific rest) (omega (arith, len-specific)))
          ∙ ap (λ u. (h, update_route u ∷ []))
              (received-sent d.src_prefix (long_plen ae flags) (rw z refl) (
                ap (long_plen ae) flags-specific
                ∙ long_plen-real d.src_plen source_is.short source_long))
          ∙ ap (λ g. (g, update_route (sent_update h) ∷ [])) (sym unchanged)
