-- ===== src/Message/Send/RoundTrip/Body.antt =====
-- message.c: the fields of an update, once its prefix has been read.
use rabeld.Prelude.{
  ℕ, zero, suc, ◌+◌, ◌-◌, ◌*◌, ◌≤◌, ◌≡◌, refl, arith, Bool, false, ltb, ◌==◌, if◌then◌else◌, min,
  List, [], ◌∷◌, ◌++◌, drop, length, Option, some, none, ap, ◌∙◌,
}
use rabeld.Util.Prefix.{zeroes}
use rabeld.Message.{ntohs}
use rabeld.Message.Prefix.{network_prefix}
use rabeld.Message.Prefix.Laws.{bytes-append}
use rabeld.Message.SubTlv.{parse_update_subtlv, update_subtlv}
use rabeld.Message.Parse.{
  Link, Heard, Update, update_route, update_prefix, remember, next_hop, use_update, parse_update,
  parse_update_src_specific, long_plen, for_router, retract_neighbour_routes,
}
use rabeld.Message.Send.{channel_bytes}
use rabeld.Message.Send.RoundTrip.Update.{header}

-- The channels that a receiver takes an update to have: those that were sent, or a guess.
abbrev pub received_channels : Bool → ℕ → Option (List ℕ) → List ℕ
received_channels faraway metric none =
    if faraway then [] else (if ltb metric 256 then [] else 0xFF ∷ [])
received_channels faraway metric (some channels) = channels

pub channels_read :
    (faraway : Bool) (metric : ℕ) (channels : Option (List ℕ)) (rest : List ℕ)
    → length (channel_bytes channels) ≤ 22
    → parse_update_subtlv faraway metric
        (channel_bytes channels ++ rest)
        (length (channel_bytes channels))
      ≡ some (received_channels faraway metric channels)
unfolding parse_update_subtlv update_subtlv
channels_read faraway metric none rest h = refl
channels_read faraway metric (some channels) rest h =
    rw
      (
        positive (suc (length channels)),
        fits (length channels),
        least (length channels) (omega arith),
        bytes-append (length channels) channels rest refl,
        nothing_left (length channels),
      )
      (finished (suc (length channels))
        (drop (length channels + 2) (2 ∷ length channels ∷ channels ++ rest)) channels)
  where
    positive : (n : ℕ) → suc n == 0 ≡ false
    positive n = ground arith

    fits : (n : ℕ) → ltb (suc (suc n)) n ≡ false
    fits n = ground arith

    least : (n : ℕ) → n ≤ 20 → min n 20 ≡ n
    least n le = omega arith

    nothing_left : (n : ℕ) → suc (suc n) - (n + 2) ≡ 0
    nothing_left n = omega arith

    finished : (rounds : ℕ) (a c : List ℕ) → update_subtlv rounds a 0 c ≡ some c
    finished zero a c = refl
    finished (suc rounds) a c = refl

module _ (link : Link) (h h' : Heard) (len ae x plen omitted b₆ b₇ b₈ b₉ b₁₀ b₁₁ : ℕ) (p : List ℕ)
    (prefix : List ℕ) (rc : ℕ) (id nh : List ℕ) (channels : Option (List ℕ)) where
  -- What an update with these fields is taken for.
  abbrev pub as_update : List ℕ → ℕ → Update
  as_update src_prefix src_plen = record {
    id = id;
    prefix = prefix;
    plen = long_plen ae plen;
    src_prefix = src_prefix;
    src_plen = src_plen;
    seqno = b₈ * 256 + b₉;
    metric = b₁₀ * 256 + b₁₁;
    interval = b₆ * 256 + b₇;
    nexthop = nh;
    channels = channels;
  }

  used :
      (m src_prefix : List ℕ) (src_plen parsed : ℕ)
      → (g : Heard) → next_hop link ae g ≡ some nh
      → parse_update_subtlv link.faraway (ntohs (drop 10 m)) (drop (2 + parsed) m) (len - parsed)
        ≡ channels
      → ntohs (drop 6 m) ≡ b₆ * 256 + b₇
      → ntohs (drop 8 m) ≡ b₈ * 256 + b₉
      → ntohs (drop 10 m) ≡ b₁₀ * 256 + b₁₁
      → use_update link ae id prefix (long_plen ae plen) src_prefix src_plen m len parsed g
        ≡ update_route (as_update src_prefix src_plen) ∷ []
  unfolding use_update
  used m src_prefix src_plen parsed g n c e₆ e₈ e₁₀ = rw (use_update, n, c, e₆, e₈, e₁₀) refl

  pub parse_update-header :
      10 ≤ len
      → ae == 0 ≡ false
      → update_prefix (header 8 x len b₆ b₇ b₈ b₉ b₁₀ b₁₁ ae plen omitted p) len h
        ≡ some (prefix, rc)
      → remember ae x prefix h ≡ h'
      → h'.router_id ≡ some id
      → next_hop link ae h' ≡ some nh
      → parse_update_subtlv link.faraway
          (b₁₀ * 256 + b₁₁)
          (drop (2 + (10 + rc)) (header 8 x len b₆ b₇ b₈ b₉ b₁₀ b₁₁ ae plen omitted p))
          (len - (10 + rc))
        ≡ channels
      → parse_update link (header 8 x len b₆ b₇ b₈ b₉ b₁₀ b₁₁ ae plen omitted p) len h
        ≡ (h', update_route (as_update zeroes 0) ∷ [])
  unfolding parse_update
  parse_update-header long kind e r i n c =
      let m : List ℕ = header 8 x len b₆ b₇ b₈ b₉ b₁₀ b₁₁ ae plen omitted p in
      rw (short, e, r, kind)
        (ap (λ t. (h', t))
          (ap
              (λ o. for_router o (λ id'.
                use_update link ae id' prefix (long_plen ae plen) zeroes 0 m len (10 + rc) h'))
              i
            ∙ used m zeroes 0 (10 + rc) h' n c refl refl refl))
    where
      short : ltb len 10 ≡ false
      short = ground arith

  pub parse_update_src_specific-header :
      (src_prefix : List ℕ) (rc' : ℕ)
      → 10 ≤ len
      → ae == 0 ≡ false
      → update_prefix (header 13 x len b₆ b₇ b₈ b₉ b₁₀ b₁₁ ae plen omitted p) len h
        ≡ some (prefix, rc)
      → network_prefix ae
          (some x)
          0
          (drop (12 + rc) (header 13 x len b₆ b₇ b₈ b₉ b₁₀ b₁₁ ae plen omitted p))
          none
          (len - (10 + rc))
        ≡ some (src_prefix, rc')
      → h.router_id ≡ some id
      → next_hop link ae h ≡ some nh
      → parse_update_subtlv link.faraway
          (b₁₀ * 256 + b₁₁)
          (drop (2 + (10 + rc + rc')) (header 13 x len b₆ b₇ b₈ b₉ b₁₀ b₁₁ ae plen omitted p))
          (len - (10 + rc + rc'))
        ≡ channels
      → parse_update_src_specific link (header 13 x len b₆ b₇ b₈ b₉ b₁₀ b₁₁ ae plen omitted p) len h
        ≡ (h, update_route (as_update src_prefix (long_plen ae x)) ∷ [])
  unfolding parse_update_src_specific
  parse_update_src_specific-header src_prefix rc' long kind e s i n c =
      let m : List ℕ = header 13 x len b₆ b₇ b₈ b₉ b₁₀ b₁₁ ae plen omitted p in
      rw (short, e, s)
        (ap (λ t. (h, t))
          (ap
              (λ o. for_router o (λ id'.
                if ae == 0
                then retract_neighbour_routes ∷ []
                else use_update link ae id' prefix (long_plen ae plen) src_prefix (long_plen ae x) m
                    len (10 + rc + rc') h))
              i
            ∙ rw kind (used m src_prefix (long_plen ae x) (10 + rc + rc') h n c refl refl refl)))
    where
      short : ltb len 10 ≡ false
      short = ground arith
