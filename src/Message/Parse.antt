-- ===== src/Message/Parse.antt =====
-- message.c: parse_packet.
pub mod Loop
pub mod Ends
use rabeld.Prelude.{
  ℕ, zero, suc, ◌+◌, ◌-◌, ◌*◌, ◌/◌, ◌%◌, ◌^◌, Bool, true, false, ltb, leb, ◌==◌, ◌&&◌, ◌||◌, not,
  if◌then◌else◌, List, [], ◌∷◌, ◌++◌, get_or, drop, replicate, Option, some, none,
}
use rabeld.Util.Prefix.{zeroes, linklocal}
use rabeld.Message.{ntohs, max_channel_hops}
use rabeld.Message.Prefix.{bytes, network_prefix, network_address}
use rabeld.Message.SubTlv.{parse_update_subtlv, parse_hello_subtlv, parse_ihu_subtlv}

-- The arguments of update_route, less the neighbour; `channels` is `none` where they are the 20
-- bytes of an uninitialised buffer.
pub record Update : Type 0 where
  pub id : List ℕ
  pub prefix : List ℕ
  pub plen : ℕ
  pub src_prefix : List ℕ
  pub src_plen : ℕ
  pub seqno : ℕ
  pub metric : ℕ
  pub interval : ℕ
  pub nexthop : List ℕ
  pub channels : Option (List ℕ)

-- What parse_packet calls and sets, for the neighbour that it found. `heard_hello` is
-- update_neighbour and update_neighbour_metric with its result; `heard_ihu` sets the txcost and the
-- time and interval of the IHU, and calls update_neighbour_metric; `heard_timestamp` sets
-- hello_send_us and hello_rtt_receive_time. `full_update` and `full_specific_update` are the
-- answers to wildcard requests, which are held back after a recent one.
pub data Call : Type 0 where
  send_ack : ℕ → ℕ → Call
  heard_hello : ℕ → ℕ → Call
  heard_ihu : ℕ → ℕ → Call
  heard_timestamp : ℕ → Call
  schedule_neighbours_check : ℕ → Call
  retract_neighbour_routes : Call
  update_route : Update → Call
  send_ihu full_update full_specific_update : Call
  send_update : List ℕ → ℕ → List ℕ → ℕ → Call
  handle_request : List ℕ → ℕ → List ℕ → ℕ → ℕ → ℕ → List ℕ → Call

-- What the parser reads of the interface and the neighbour; `ll_address` is interface_ll_address.
pub record Link : Type 0 where
  pub has_ipv4 : Bool
  pub faraway : Bool
  pub address : List ℕ
  pub ll_address : List ℕ → Bool

-- The local variables of parse_packet that live from one message to the next: each array with its
-- `have_` flag is an option.
pub record Heard : Type 0 where
  pub router_id : Option (List ℕ)
  pub v4_prefix : Option (List ℕ)
  pub v6_prefix : Option (List ℕ)
  pub v4_nh : Option (List ℕ)
  pub v6_nh : Option (List ℕ)
  pub have_hello_rtt : Bool
  pub hello_send_us : ℕ
  pub hello_rtt_receive_time : ℕ

abbrev pub nothing_heard : Heard
nothing_heard = record {
  router_id = none;
  v4_prefix = none;
  v6_prefix = none;
  v4_nh = none;
  v6_nh = none;
  have_hello_rtt = false;
  hello_send_us = 0;
  hello_rtt_receive_time = 0;
}

abbrev pub bit : ℕ → ℕ → Bool
bit n x = x / 2 ^ n % 2 == 1

-- A prefix length as an unsigned char.
abbrev pub long_plen : ℕ → ℕ → ℕ
long_plen ae plen = (if ae == 1 then plen + 96 else plen) % 256

abbrev pub forget_prefixes : Heard → Heard
forget_prefixes h = record h { v4_prefix = none; v6_prefix = none }

-- In what follows `m` is `message`, the bytes from the type on.
unfoldable pub parse_hello : List ℕ → ℕ → Heard → Heard × List Call
parse_hello m len h =
    if ltb len 6
    then (h, [])
    else (let stamp : Option ℕ =
          if ltb 8 len then parse_hello_subtlv (drop 8 m) (len - 6) else none in
        (
          elim stamp [ none ↦ h | some us ↦ record h { have_hello_rtt = true } ],
          heard_hello (ntohs (drop 4 m)) (ntohs (drop 6 m))
              ∷ ((if ltb 0 (ntohs (drop 6 m))
                    then schedule_neighbours_check (ntohs (drop 6 m) * 15) ∷ []
                    else [])
                  ++ (elim stamp [ none ↦ [] | some us ↦ heard_timestamp us ∷ [] ])),
        ))

unfoldable pub parse_ihu : Link → List ℕ → ℕ → Heard → Heard × List Call
parse_ihu link m len h =
    if ltb len 6 then (h, []) else elim (network_address (get_or m 2 0) (drop 8 m) (len - 6)) [
      | none ↦ (h, [])
      | some (address, rc) ↦
          let stamps : Option (ℕ × ℕ) =
            if ltb (10 + rc) len then parse_ihu_subtlv (drop (8 + rc) m) (len - 6 - rc) else none in
          if get_or m 2 0 == 0 || link.ll_address address
          then (
            elim stamps [
              | none ↦ h
              | some (send_us, receive_us) ↦ record h {
                hello_send_us = send_us;
                hello_rtt_receive_time = receive_us;
              }
            ],
            heard_ihu (ntohs (drop 4 m)) (ntohs (drop 6 m))
                ∷ (if ltb 0 (ntohs (drop 6 m))
                    then schedule_neighbours_check (ntohs (drop 6 m) * 45) ∷ []
                    else []),
          )
          else (h, [])
    ]

unfoldable pub parse_router_id : List ℕ → ℕ → Heard → Heard × List Call
parse_router_id m len h =
    if ltb len 10
    then (record h { router_id = none }, [])
    else (record h { router_id = some (bytes 8 (drop 4 m)) }, [])

unfoldable pub parse_nh : List ℕ → ℕ → Heard → Heard × List Call
parse_nh m len h =
    let lost : Heard = record h { v4_nh = none; v6_nh = none } in
    if ltb len 2 then (lost, []) else elim (network_address (get_or m 2 0) (drop 4 m) (len - 2)) [
      | none ↦ (lost, [])
      | some (nh, rc) ↦
          if get_or m 2 0 == 1
          then (record h { v4_nh = some nh }, [])
          else (record h { v6_nh = some nh }, [])
    ]

abbrev pub is_some : Option (List ℕ) → Bool
is_some none = false
is_some (some p) = true

-- The prefix of an update: `v4_prefix` or `v6_prefix` is the last one.
unfoldable pub update_prefix : List ℕ → ℕ → Heard → Option (List ℕ × ℕ)
update_prefix m len h =
    let last : Option (List ℕ) = if get_or m 2 0 == 1 then h.v4_prefix else h.v6_prefix in
    if get_or m 5 0 == 0 || is_some last
    then network_prefix (get_or m 2 0) (some (get_or m 4 0)) (get_or m 5 0) (drop 12 m) last
        (len - 10)
    else none

-- The flags 0x80 and 0x40 of an update.
unfoldable pub remember : ℕ → ℕ → List ℕ → Heard → Heard
remember ae flags prefix h =
    let h₁ : Heard =
      if bit 7 flags
      then (if ae == 1
          then (record h { v4_prefix = some prefix })
          else (record h { v6_prefix = some prefix }))
      else h in
    if bit 6 flags
    then (record h₁ {
      router_id =
          some (
            if ae == 1 then replicate 4 0 ++ bytes 4 (drop 12 prefix) else bytes 8 (drop 8 prefix));
    })
    else h₁

-- The next hop of a route to an IPv4 or IPv6 prefix, `none` where the update is dropped.
unfoldable pub next_hop : Link → ℕ → Heard → Option (List ℕ)
next_hop link ae h =
    if ae == 1
    then (if link.has_ipv4 then h.v4_nh else none)
    else some (elim (h.v6_nh) [ none ↦ link.address | some nh ↦ nh ])

-- The end of both kinds of update; `parsed` is parsed_len.
unfoldable pub use_update :
    Link → ℕ → List ℕ → List ℕ → ℕ → List ℕ → ℕ → List ℕ → ℕ → ℕ → Heard → List Call
use_update link ae id prefix plen src_prefix src_plen m len parsed h = elim (next_hop link ae h) [
  | none ↦ []
  | some nh ↦
      update_route (record {
        id = id;
        prefix = prefix;
        plen = plen;
        src_prefix = src_prefix;
        src_plen = src_plen;
        seqno = ntohs (drop 8 m);
        metric = ntohs (drop 10 m);
        interval = ntohs (drop 6 m);
        nexthop = nh;
        channels =
            parse_update_subtlv link.faraway (ntohs (drop 10 m)) (drop (2 + parsed) m)
              (len - parsed);
      })
      ∷ []
]

-- "Received prefix with no router id."
abbrev pub for_router : Option (List ℕ) → (List ℕ → List Call) → List Call
for_router none calls = []
for_router (some id) calls = calls id

unfoldable pub parse_update : Link → List ℕ → ℕ → Heard → Heard × List Call
parse_update link m len h =
    let ae : ℕ = get_or m 2 0 in
    let flags : ℕ = get_or m 3 0 in
    if ltb len 10
    then (if ltb len 2 || bit 7 flags then forget_prefixes h else h, [])
    else elim (update_prefix m len h) [
      | none ↦ (if bit 7 flags then forget_prefixes h else h, [])
      | some (prefix, rc) ↦
          let h' : Heard = remember ae flags prefix h in
          (
            h',
            if ae == 0
                then (if ltb (ntohs (drop 10 m)) 0xFFFF then [] else retract_neighbour_routes ∷ [])
                else for_router h'.router_id (λ id.
                  use_update link ae id prefix (long_plen ae (get_or m 4 0)) zeroes 0 m len
                    (10 + rc) h'),
          )
    ]

unfoldable pub parse_request : List ℕ → ℕ → Heard → Heard × List Call
parse_request m len h =
    let ae : ℕ = get_or m 2 0 in
    if ltb len 2
    then (h, [])
    else elim (network_prefix ae (some (get_or m 3 0)) 0 (drop 4 m) none (len - 2)) [
      | none ↦ (h, [])
      | some (prefix, rc) ↦ (
        h,
        if ae == 0
            then send_ihu ∷ full_update ∷ []
            else send_update prefix (long_plen ae (get_or m 3 0)) zeroes 0 ∷ [],
      )
    ]

unfoldable pub parse_mh_request : List ℕ → ℕ → Heard → Heard × List Call
parse_mh_request m len h =
    let ae : ℕ = get_or m 2 0 in
    if ltb len 14
    then (h, [])
    else elim (network_prefix ae (some (get_or m 3 0)) 0 (drop 16 m) none (len - 14)) [
      | none ↦ (h, [])
      | some (prefix, rc) ↦ (
        h,
        handle_request prefix (long_plen ae (get_or m 3 0)) zeroes 0 (get_or m 6 0)
              (ntohs (drop 4 m)) (bytes 8 (drop 8 m))
            ∷ [],
      )
    ]

unfoldable pub parse_update_src_specific : Link → List ℕ → ℕ → Heard → Heard × List Call
parse_update_src_specific link m len h =
    let ae : ℕ = get_or m 2 0 in
    if ltb len 10 then (h, []) else elim (update_prefix m len h) [
      | none ↦ (h, [])
      | some (prefix, rc) ↦
          elim (network_prefix ae (some (get_or m 3 0)) 0 (drop (12 + rc) m) none
            (len - (10 + rc))) [
              | none ↦ (h, [])
              | some (src_prefix, rc') ↦ (
                h,
                for_router h.router_id (λ id.
                    if ae == 0
                    then retract_neighbour_routes ∷ []
                    else use_update link ae id prefix (long_plen ae (get_or m 4 0)) src_prefix
                        (long_plen ae (get_or m 3 0)) m len (10 + rc + rc') h),
              )
            ]
    ]

unfoldable pub parse_request_src_specific : List ℕ → ℕ → Heard → Heard × List Call
parse_request_src_specific m len h =
    let ae : ℕ = get_or m 2 0 in
    if ltb len 3
    then (h, [])
    else elim (network_prefix ae (some (get_or m 3 0)) 0 (drop 5 m) none (len - 3)) [
      | none ↦ (h, [])
      | some (prefix, rc) ↦
          elim (network_prefix ae (some (get_or m 4 0)) 0 (drop (5 + rc) m) none (len - 3 - rc)) [
            | none ↦ (h, [])
            | some (src_prefix, rc') ↦ (
              h,
              if ae == 0
                  then send_ihu ∷ full_specific_update ∷ []
                  else send_update prefix (long_plen ae (get_or m 3 0)) src_prefix
                      (long_plen ae (get_or m 4 0))
                    ∷ [],
            )
          ]
    ]

unfoldable pub parse_mh_request_src_specific : List ℕ → ℕ → Heard → Heard × List Call
parse_mh_request_src_specific m len h =
    let ae : ℕ = get_or m 2 0 in
    if ltb len 14
    then (h, [])
    else elim (network_prefix ae (some (get_or m 3 0)) 0 (drop 16 m) none (len - 14)) [
      | none ↦ (h, [])
      | some (prefix, rc) ↦
          elim (network_prefix ae (some (get_or m 7 0)) 0 (drop (16 + rc) m) none (len - 14 - rc)) [
            | none ↦ (h, [])
            | some (src_prefix, rc') ↦ (
              h,
              handle_request prefix (long_plen ae (get_or m 3 0)) src_prefix
                    (long_plen ae (get_or m 7 0)) (get_or m 6 0) (ntohs (drop 4 m))
                    (bytes 8 (drop 8 m))
                  ∷ [],
            )
          ]
    ]

-- The MESSAGE_ constants.
abbrev pub message_nh : ℕ
message_nh = 7

abbrev pub message_router_id : ℕ
message_router_id = 6

abbrev pub message_update : ℕ
message_update = 8

abbrev pub message_update_src_specific : ℕ
message_update_src_specific = 13

-- The chain of tests on the type. An unknown type is passed over, as are PADN and ACK.
unfoldable pub parse_message : Link → List ℕ → ℕ → Heard → Heard × List Call
parse_message link m len h =
    let type : ℕ = get_or m 0 0 in
    if type == 2
    then (h, if ltb len 6 then [] else send_ack (ntohs (drop 4 m)) (ntohs (drop 6 m)) ∷ [])
    else (if type == 4
        then parse_hello m len h
        else (if type == 5
            then parse_ihu link m len h
            else (if type == message_router_id
                then parse_router_id m len h
                else (if type == message_nh
                    then parse_nh m len h
                    else (if type == message_update
                        then parse_update link m len h
                        else (if type == 9
                            then parse_request m len h
                            else (if type == 10
                                then parse_mh_request m len h
                                else (if type == message_update_src_specific
                                    then parse_update_src_specific link m len h
                                    else (if type == 14
                                        then parse_request_src_specific m len h
                                        else (if type == 15
                                            then parse_mh_request_src_specific m len h
                                            else (h, [])))))))))))

-- The loop over the messages: `m` is the memory from the next one on, and `left` is what is left of
-- `bodylen`. Each round takes a byte at least.
unfoldable pub parse_loop : ℕ → Link → List ℕ → ℕ → Heard → Heard × List Call
parse_loop zero link m left h = (h, [])
parse_loop (suc rounds) link m left h =
    let len : ℕ = get_or m 1 0 in
    let (h', calls) = parse_message link m len h in
    let padded : Heard × List Call = parse_loop rounds link (drop 1 m) (left - 1) h in
    let rest : Heard × List Call =
      parse_loop rounds link (drop (len + 2) m) (left - (len + 2)) h' in
    if left == 0
    then (h, [])
    else (if get_or m 0 0 == 0
        then padded
        else (if ltb left len then (h, []) else (rest.0, calls ++ rest.1)))

-- `from` is the sender's address. What follows the loop, the computation of the round-trip time, is
-- left out. `none` stands for a packet that is rejected before a neighbour is
-- looked up.
unfoldable pub parse_packet : Link → List ℕ → List ℕ → ℕ → Option (Heard × List Call)
parse_packet link from packet packetlen =
    if not (linklocal from) || (not (get_or packet 0 0 == 42) || not (get_or packet 1 0 == 2))
    then none
    else (let said : ℕ = ntohs (drop 2 packet) in
        let bodylen : ℕ = if ltb packetlen (said + 4) then packetlen - 4 else said in
        some (parse_loop bodylen link (drop 4 packet) bodylen nothing_heard))
