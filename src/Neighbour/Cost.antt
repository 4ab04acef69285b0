-- ===== src/Neighbour/Cost.antt =====
-- neighbour.c: the cost of the link to a neighbour, from the hellos heard (rxcost), what the
-- neighbour says it hears (txcost), and the round-trip time (rttcost).
pub mod Laws
use rabeld.Prelude.{
  ℕ, ◌+◌, ◌-◌, ◌*◌, ◌/◌, ◌%◌, ◌^◌, Bool, true, false, ◌&&◌, ◌||◌, not, Option, some, none, ltb, leb,
  ◌==◌, if◌then◌else◌, bit_and, min, max,
}
use rabeld.Util.Timeval.{Timeval, timeval_minus_msec}
use rabeld.Source.{infinity}
use rabeld.Interface.{Interface}
use rabeld.Neighbour.{Neighbour}

unfoldable pub neighbour_txcost : Neighbour → ℕ
neighbour_txcost neigh = neigh.txcost

-- `sreach` of the source: the two newest hellos count less.
unfoldable pub smoothed_reach : ℕ → ℕ
smoothed_reach reach =
    bit_and reach 0x8000 / 2 ^ 2 + bit_and reach 0x4000 / 2 ^ 1 + bit_and reach 0x3FFF

-- The cost with link-quality estimation. The product with the delay is one of unsigned 32-bit
-- numbers, and wraps.
unfoldable pub lq_cost : ℕ → ℕ → ℕ → ℕ
lq_cost ifcost reach delay =
    let cost : ℕ = 0x8000 * ifcost / (smoothed_reach reach + 1) in
    let slow : ℕ = (cost * (delay - 20000) + 10000) % 2 ^ 32 / 20000 in
    min (if leb 40000 delay then slow else cost) infinity

-- Without: two of the last three hellos, the last two first, must have been heard.
unfoldable pub two_of_three_cost : ℕ → ℕ → ℕ
two_of_three_cost ifcost reach =
    if bit_and reach 0xC000 == 0xC000
    then ifcost
    else (if bit_and reach 0xC000 == 0
        then infinity
        else (if not (bit_and reach 0x2000 == 0) then ifcost else infinity))

unfoldable pub neighbour_rxcost : Timeval → Interface → Neighbour → ℕ
neighbour_rxcost now ifp neigh =
    let delay : ℕ = timeval_minus_msec now neigh.hello_time in
    if bit_and neigh.reach 0xFFF0 == 0 || leb 180000 delay
    then infinity
    else (if ifp.lq
        then lq_cost ifp.cost neigh.reach delay
        else two_of_three_cost ifp.cost neigh.reach)

unfoldable pub valid_rtt : Timeval → Neighbour → Bool
valid_rtt now neigh = ltb (timeval_minus_msec now neigh.rtt_time) 180000

-- The cost is 0 up to rtt_min, grows in proportion up to rtt_max and is the penalty from there on.
-- `none` is a failed assertion.
unfoldable pub penalty : Interface → ℕ → Option ℕ
penalty ifp rtt =
    let tmp : ℕ = ifp.max_rtt_penalty * (rtt - ifp.rtt_min) / (ifp.rtt_max - ifp.rtt_min) in
    if leb rtt ifp.rtt_min
    then some 0
    else (if leb rtt ifp.rtt_max
        then (if ltb tmp (2 ^ 31) then some tmp else none)
        else some (ifp.max_rtt_penalty))

unfoldable pub neighbour_rttcost : Timeval → Interface → Neighbour → Option ℕ
neighbour_rttcost now ifp neigh =
    if ifp.max_rtt_penalty == 0 || not (valid_rtt now neigh) then some 0 else penalty ifp neigh.rtt

-- The part of neighbour_cost before the round-trip time is added.
unfoldable pub etx : Bool → ℕ → ℕ → ℕ
etx lq a b =
    if not lq || (ltb a 256 && ltb b 256) then a else (max a 256 * max b 256 + 128) % 2 ^ 32 / 2 ^ 8

unfoldable pub neighbour_cost : Timeval → Interface → Neighbour → Option ℕ
neighbour_cost now ifp neigh =
    let a : ℕ = neighbour_txcost neigh in
    let b : ℕ = neighbour_rxcost now ifp neigh in
    if not ifp.up
    then some infinity
    else (if leb infinity a
        then some infinity
        else (if leb infinity b then some infinity else elim (neighbour_rttcost now ifp neigh) [
          | none ↦ none
          | some rttcost ↦ some (min ((etx ifp.lq a b + rttcost) % 2 ^ 32) infinity)
        ]))

-- The neighbour, and whether its txcost was given up.
unfoldable pub reset_txcost : Timeval → Neighbour → Neighbour × Bool
reset_txcost now neigh =
    let delay : ℕ = timeval_minus_msec now neigh.ihu_time in
    if ltb 0 neigh.ihu_interval && ltb delay (neigh.ihu_interval * 10 * 3)
    then (neigh, false)
    else (if leb 180000 delay
          || bit_and neigh.reach 0xFFF0 == 0
          || (ltb 0 neigh.ihu_interval && leb (neigh.ihu_interval * 10 * 10) delay)
        then (record neigh { txcost = infinity; ihu_time = now }, true)
        else (neigh, false))
