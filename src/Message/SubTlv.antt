-- ===== src/Message/SubTlv.antt =====
-- message.c: the attributes at the end of a TLV.
use rabeld.Prelude.{
  ℕ, zero, suc, ◌+◌, ◌-◌, Bool, true, false, ltb, leb, ◌==◌, if◌then◌else◌, min, List, [], ◌∷◌,
  get_or, drop, Option, some, none,
}
use rabeld.Message.{ntohl, max_channel_hops}
use rabeld.Message.Prefix.{bytes}

-- The loop of parse_update_subtlv: `a` is the rest of the attributes and `alen` its length. The
-- result is the channels, or `none` where it returns early: then the caller's buffer is not set, and
-- its length is still MAX_CHANNEL_HOPS.
unfoldable pub update_subtlv : ℕ → List ℕ → ℕ → List ℕ → Option (List ℕ)
update_subtlv zero a alen channels = some channels
update_subtlv (suc rounds) a alen channels =
    let len : ℕ = get_or a 1 0 in
    let channels' : List ℕ =
      if get_or a 0 0 == 2 then bytes (min len max_channel_hops) (drop 2 a) else channels in
    let padded : Option (List ℕ) = update_subtlv rounds (drop 1 a) (alen - 1) channels in
    let rest : Option (List ℕ) =
      update_subtlv rounds (drop (len + 2) a) (alen - (len + 2)) channels' in
    if alen == 0
    then some channels
    else (if get_or a 0 0 == 0 then padded else (if ltb alen len then none else rest))

-- Each round takes a byte at least.
unfoldable pub parse_update_subtlv : Bool → ℕ → List ℕ → ℕ → Option (List ℕ)
parse_update_subtlv faraway metric a alen =
    update_subtlv alen a alen (if faraway then [] else (if ltb metric 256 then [] else 0xFF ∷ []))

-- The loops of parse_hello_subtlv and parse_ihu_subtlv, which differ in the length of their
-- timestamps. They take the type from the first attribute (`a[0]`) in every round. The result is
-- the last timestamp found, as the bytes from it on, and whether the loop returned -1.
unfoldable pub timestamp_subtlv : ℕ → ℕ → ℕ → List ℕ → ℕ → Option (List ℕ) → Option (List ℕ) × Bool
timestamp_subtlv zero size type a alen stamp = (stamp, false)
timestamp_subtlv (suc rounds) size type a alen stamp =
    let len : ℕ = get_or a 1 0 in
    let stamp' : Option (List ℕ) =
      if type == 3 then (if leb size len then some (drop 2 a) else stamp) else stamp in
    let padded : Option (List ℕ) × Bool =
      timestamp_subtlv rounds size type (drop 1 a) (alen - 1) stamp in
    let rest : Option (List ℕ) × Bool =
      timestamp_subtlv rounds size type (drop (len + 2) a) (alen - (len + 2)) stamp' in
    if alen == 0
    then (stamp, false)
    else (if type == 0 then padded else (if ltb alen len then (stamp, true) else rest))

-- `hello_send_us`, where the result is positive.
unfoldable pub parse_hello_subtlv : List ℕ → ℕ → Option ℕ
parse_hello_subtlv a alen =
    let (stamp, failed) = timestamp_subtlv alen 4 (get_or a 0 0) a alen none in
    if failed then none else (elim stamp [ none ↦ none | some p ↦ some (ntohl p) ])

-- `hello_send_us` and `hello_rtt_receive_time`, as far as they are written: the caller does not look
-- at the result.
unfoldable pub parse_ihu_subtlv : List ℕ → ℕ → Option (ℕ × ℕ)
parse_ihu_subtlv a alen =
    let (stamp, failed) = timestamp_subtlv alen 8 (get_or a 0 0) a alen none in
    elim stamp [ none ↦ none | some p ↦ some (ntohl p, ntohl (drop 4 p)) ]
