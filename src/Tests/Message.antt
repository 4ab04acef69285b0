-- ===== src/Tests/Message.antt =====
-- message.c at fixed inputs.
use rabeld.Prelude.{
  ℕ, zero, suc, ◌<◌, get_or, ◌≡◌, refl, arith, true, false, List, [], ◌∷◌, ◌++◌, replicate, some,
  none, inl, inr,
}
use mathlib.Core.Option
use rabeld.Prelude.Bytes.{memcmp}
use rabeld.Util.Prefix.{normalize_prefix, v4mapped}
use rabeld.Resend.{Destination}
use rabeld.Message.Parse.{Link, nothing_heard, parse_loop}
use rabeld.Message.Parse.Ends.{Ends, parse_loop-Ends}
use rabeld.Message.Prefix.{network_prefix}
use rabeld.Message.Prefix.Laws.{IsPrefix, network_prefix-omitted}
use rabeld.Message.Send.{
  send_messages, send_from_id, send_id, start_message, flushbuf, id_message, ensure_space, Sender,
  Output, is_v4, common_bytes, really_send_update,
}
use rabeld.Message.Send.Bound.{FitsBuffer}
use rabeld.Message.Send.Roomy.{really_send_update-FitsBuffer}
use rabeld.Message.Send.RoundTrip.Delivers.{empty_buffer, received}
use rabeld.Message.Send.RoundTrip.Stream.{
  Announcement, CanSend, send_each, expected_all, received-send_each,
}

abbrev peer : Link
peer = record {
  has_ipv4 = true;
  faraway = false;
  address = 0xFE ∷ 0x80 ∷ replicate 14 1;
  ll_address = λ a. false;
}

abbrev eth : Sender
eth = record {
  up = true;
  ipv4 = some (192 ∷ 0 ∷ 2 ∷ 1 ∷ []);
  bufsize = 100;
  update_interval = 1600;
  channel_diversity = true;
}

abbrev router : List ℕ
router = replicate 8 5

-- 2001:db8:1::/48 and 2001:db8:2::/48, of which five bytes are shared
abbrev first : Destination
first = record {
  prefix = 0x20 ∷ 0x01 ∷ 0x0d ∷ 0xb8 ∷ 0 ∷ 1 ∷ replicate 10 0;
  plen = 48;
  src_prefix = replicate 16 0;
  src_plen = 0;
}

abbrev second : Destination
second = record {
  prefix = 0x20 ∷ 0x01 ∷ 0x0d ∷ 0xb8 ∷ 0 ∷ 2 ∷ replicate 10 0;
  plen = 48;
  src_prefix = 0x20 ∷ 0x01 ∷ replicate 14 0;
  src_plen = 16;
}

-- 10.0.0.0/8
abbrev third : Destination
third = record {
  prefix = replicate 10 0 ++ 0xFF ∷ 0xFF ∷ 10 ∷ 0 ∷ 0 ∷ 0 ∷ [];
  plen = 104;
  src_prefix = replicate 16 0;
  src_plen = 0;
}

abbrev announce : Destination → Announcement
announce d = record {
  add_metric = 96;
  id = router;
  to = d;
  seqno = 700;
  metric = 256;
  channels = some (6 ∷ []);
}

abbrev updates : List Announcement
updates = announce first ∷ announce second ∷ announce third ∷ []

-- Every form of the message is among them.
shared_run : common_bytes 6 first.prefix second.prefix ≡ 5
unfolding common_bytes
shared_run = refl

can_first : CanSend eth peer (announce first)
unfolding is_v4 v4mapped normalize_prefix memcmp
can_first = record {
  sendable = record {
    prefix = record { length_is = refl; normal = refl; short = omega arith };
    mapped = refl;
    source = inl refl;
    source_family = inl refl;
    seqno_fits = omega arith;
    metric_fits = omega arith;
    interval_fits = omega arith;
    channels_fit = omega arith;
  };
  reached = inl refl;
}

can_second : CanSend eth peer (announce second)
unfolding is_v4 v4mapped normalize_prefix memcmp
can_second = record {
  sendable = record {
    prefix = record { length_is = refl; normal = refl; short = omega arith };
    mapped = refl;
    source = inr (record { length_is = refl; normal = refl; short = omega arith });
    source_family = inl refl;
    seqno_fits = omega arith;
    metric_fits = omega arith;
    interval_fits = omega arith;
    channels_fit = omega arith;
  };
  reached = inl refl;
}

can_third : CanSend eth peer (announce third)
unfolding is_v4 v4mapped normalize_prefix memcmp
can_third = record {
  sendable = record {
    prefix = record { length_is = refl; normal = refl; short = omega arith };
    mapped = refl;
    source = inl refl;
    source_family = inr (inl refl);
    seqno_fits = omega arith;
    metric_fits = omega arith;
    interval_fits = omega arith;
    channels_fit = omega arith;
  };
  reached = inr refl;
}

received-send_each_example :
    (r : Output × List (List ℕ)) × (send_each eth updates empty_buffer ≡ some r)
    × (received peer r.1 ++ received peer (r.0.sendbuf ∷ []) ≡ expected_all eth peer updates)
received-send_each_example =
    received-send_each eth peer updates (omega arith) (can_first, (can_second, (can_third, tt)))

parse_loop-Ends_example :
    Ends peer
      (0 ∷ 6 ∷ 2 ∷ 0 ∷ 0 ∷ [])
      5
      nothing_heard
      (parse_loop 5 peer (0 ∷ 6 ∷ 2 ∷ 0 ∷ 0 ∷ []) 5 nothing_heard)
parse_loop-Ends_example =
    parse_loop-Ends 5 peer (0 ∷ 6 ∷ 2 ∷ 0 ∷ 0 ∷ []) 5 nothing_heard (omega arith)

second_IsPrefix : IsPrefix second.prefix 48
unfolding normalize_prefix
second_IsPrefix = record { length_is = refl; normal = refl; short = omega arith }

first_is_v6 : v4mapped first.prefix ≡ false
unfolding v4mapped memcmp
first_is_v6 = refl

five_shared : (j : ℕ) → j < 5 → get_or first.prefix j 0 ≡ get_or second.prefix j 0
five_shared zero h = refl
five_shared (suc zero) h = refl
five_shared (suc (suc zero)) h = refl
five_shared (suc (suc (suc zero))) h = refl
five_shared (suc (suc (suc (suc zero)))) h = refl
five_shared (suc (suc (suc (suc (suc n))))) h = absurd (omega arith)

network_prefix-omitted_example :
    network_prefix 2 (some 48) 5 (2 ∷ 9 ∷ []) (some first.prefix) 1 ≡ some (second.prefix, 1)
network_prefix-omitted_example =
    network_prefix-omitted second.prefix first.prefix (9 ∷ []) 48 5 1 second_IsPrefix (omega arith)
      (omega arith) (omega arith) first_is_v6 five_shared

second_is_v6 : is_v4 second ≡ false
unfolding is_v4
second_is_v6 = refl

really_send_update-FitsBuffer_example :
    (r : Output × List (List ℕ)) × (really_send_update eth 96 router second 700 256
        (some (6 ∷ []))
        (record empty_buffer { sendbuf = replicate 90 1 })
      ≡ some r)
    × FitsBuffer 100 r
really_send_update-FitsBuffer_example =
    really_send_update-FitsBuffer eth 96 router second 700 256 (some (6 ∷ []))
      (record empty_buffer { sendbuf = replicate 90 1 }) (omega arith) (omega arith) (omega arith)
      (omega arith) (inl second_is_v6) (omega arith)

-- 10.0.0.0/8 from a source prefix of 64 bits.
source_overrun :
    really_send_update eth 96 router (record third { src_plen = 64 }) 700 256 none empty_buffer
    ≡ none
unfolding really_send_update is_v4 v4mapped memcmp ensure_space
source_overrun = refl

-- With a buffer of 64 bytes the router-id goes into another packet than the update that it is for.
split_update :
    Option.map
      (λ (r : Output × List (List ℕ)). r.1)
      (really_send_update
        (record eth { bufsize = 64 })
        96
        router
        (record second { plen = 128; src_plen = 128 })
        700
        256
        (some (replicate 10 1))
        empty_buffer)
    ≡ some ((6 ∷ 10 ∷ 0 ∷ 0 ∷ router) ∷ [])
unfolding really_send_update is_v4 v4mapped memcmp ensure_space send_messages send_from_id send_id
    start_message flushbuf id_message
split_update = refl
