-- ===== src/Tests/Neighbour.antt =====
-- neighbour.c at fixed inputs.
use rabeld.Prelude.{
  ℕ, ◌+◌, ◌/◌, ◌^◌, ◌≤◌, ◌≡◌, refl, arith, Bool, true, false, List, [], ◌∷◌, replicate, some, none,
}
use rabeld.Prelude.Int.{pos}
use rabeld.Util.Seqno.{seqno_minus}
use rabeld.Util.Timeval.{Timeval, timeval_minus_msec}
use rabeld.Source.{infinity}
use rabeld.Interface.{Interface}
use rabeld.Neighbour.{
  Neighbour, Event, new_neighbour, find_neighbour, find_neighbour_nocreate, flush_neighbour,
  send_hello, notify_add, notify_flush, flush_neighbour_routes, flush_resends,
  update_neighbour_metric,
}
use rabeld.Neighbour.Hello.{update_neighbour, count_missed}
use rabeld.Neighbour.Hello.Laws.{HasHistory, update_neighbour-in_order, update_neighbour-undefined}
use rabeld.Neighbour.Cost.{
  smoothed_reach, lq_cost, penalty, neighbour_cost, neighbour_rxcost, neighbour_rttcost,
  neighbour_txcost, etx, valid_rtt, reset_txcost,
}
use rabeld.Neighbour.Cost.Laws.{neighbour_cost-bounds}
use rabeld.Neighbour.Check.{Walk, check_neighbours, check_from, check_neighbour}
use rabeld.Neighbour.Check.Laws.{AllKept, check_neighbours-AllKept}

abbrev at : ℕ → Timeval
at s = record { sec = s; usec = 0 }

abbrev peer : Neighbour
peer = record {
  handle = 1;
  address = replicate 16 0;
  ifp = 2;
  hello_send_us = 0;
  hello_rtt_receive_time = at 0;
  hello_seqno = pos 65530;
  reach = 0xC000;
  txcost = 256;
  hello_time = at 100;
  ihu_time = at 100;
  hello_interval = 400;
  ihu_interval = 1200;
  rtt = 50000;
  rtt_time = at 100;
}

abbrev radio : Interface
radio = record {
  ifindex = 3;
  up = true;
  lq = true;
  split_horizon = false;
  faraway = false;
  timestamps = true;
  cost = 256;
  channel = pos 0;
  hello_interval = 4000;
  update_interval = 16000;
  rtt_decay = 42;
  rtt_min = 10000;
  rtt_max = 120000;
  max_rtt_penalty = 150;
}

created : find_neighbour (some 9) (at 5) (replicate 16 0) 2 [] ≡ (
  new_neighbour 9 (replicate 16 0) 2 (at 5) ∷ [],
  some (new_neighbour 9 (replicate 16 0) 2 (at 5)),
  notify_add 9 ∷ send_hello 2 ∷ [],
)
unfolding find_neighbour find_neighbour_nocreate
created = refl

peer-HasHistory : HasHistory peer 65530
peer-HasHistory = record { known = refl; in_range = omega arith; some_bit = omega arith }

-- The product of the link-quality cost wraps at 32 bits: a link that is hardly heard costs nothing.
lq_cost_wraps : lq_cost 256 0x0030 45088 ≡ 0
unfolding lq_cost smoothed_reach
lq_cost_wraps = refl

peer_cost : neighbour_cost (at 101) radio peer ≡ some 565
unfolding neighbour_cost neighbour_rxcost neighbour_rttcost neighbour_txcost lq_cost smoothed_reach
    etx penalty valid_rtt timeval_minus_msec
peer_cost = refl

update_neighbour-in_order_example :
    (r : Neighbour × Bool × List Event) × (update_neighbour (at 104) (some 2) 400 peer ≡ some r)
    × (r.0.reach ≡ 0xC000 / 2 ^ 7 / 2 + 2 ^ 15)
    × (r.0.hello_seqno ≡ pos 2)
    × (r.0.hello_time ≡ at 104)
update_neighbour-in_order_example =
    update_neighbour-in_order (at 104) 2 400 65530 peer peer-HasHistory 7 (omega arith)
      (unfold seqno_minus in refl)

hello_far_ahead : update_neighbour (at 104) (some 100) 400 peer ≡ none
hello_far_ahead =
    update_neighbour-undefined (at 104) 100 400 65530 peer peer-HasHistory 105 (omega arith)
      (unfold seqno_minus in refl)

neighbour_cost-bounds_example :
    (c : ℕ) × (neighbour_cost (at 101) radio peer ≡ some c) × (256 ≤ c) × (c ≤ infinity)
neighbour_cost-bounds_example =
    neighbour_cost-bounds (at 101) radio peer (omega arith) (omega arith)

-- One that is not heard any more and one that is.
abbrev pair : List Neighbour
pair =
    record peer { handle = 4; reach = 0; hello_interval = 0 }
    ∷ record peer { hello_time = at 101 }
    ∷ []

abbrev walked : Walk
walked = record {
  neighs = record peer { hello_time = at 101 } ∷ [];
  events =
      flush_neighbour_routes 4
      ∷ flush_resends 4
      ∷ notify_flush 4
      ∷ update_neighbour_metric 1 false
      ∷ [];
  msecs = 4000;
}

check_run : check_neighbours none (at 102) pair ≡ some walked
unfolding check_neighbours check_from check_neighbour update_neighbour count_missed flush_neighbour
    reset_txcost timeval_minus_msec
check_run = refl

check_neighbours-AllKept_example : AllKept (at 102) 4000 (record peer { hello_time = at 101 } ∷ [])
check_neighbours-AllKept_example =
    check_neighbours-AllKept none (at 102) pair {w = walked} (omega arith) check_run
