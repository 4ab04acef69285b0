-- ===== src/Neighbour/Cost/Laws.antt =====
-- neighbour.c: the bounds of the costs.
use rabeld.Prelude.{
  ℕ, ◌+◌, ◌-◌, ◌*◌, ◌/◌, ◌%◌, ◌^◌, ◌≤◌, ◌<◌, ◌≡◌, refl, arith, Bool, true, ◌||◌, not, some, leb,
  ◌==◌, if◌then◌else◌, min, max, Bool-cases, inl, inr, ==_iff,
}
use rabeld.Prelude.Table.{words, words-at, each_below}
use rabeld.Util.Timeval.{Timeval}
use rabeld.Source.{infinity}
use rabeld.Interface.{Interface}
use rabeld.Neighbour.{Neighbour}
use rabeld.Neighbour.Cost.{
  neighbour_txcost, smoothed_reach, lq_cost, neighbour_rxcost, valid_rtt, penalty,
  neighbour_rttcost, etx, neighbour_cost,
}

-- The two bytes of `sreach`, in arithmetic.
sreach_test : ℕ → Bool
sreach_test x = smoothed_reach x == x / 2 ^ 15 * 2 ^ 13 + x / 2 ^ 14 % 2 * 2 ^ 13 + x % 2 ^ 14

sreach_table : words sreach_test ≡ true
unfolding each_below sreach_test smoothed_reach
sreach_table = refl

smoothed_reach_lem :
    (x : ℕ)
    → x < 2 ^ 16
    → smoothed_reach x ≡ x / 2 ^ 15 * 2 ^ 13 + x / 2 ^ 14 % 2 * 2 ^ 13 + x % 2 ^ 14
unfolding sreach_test
smoothed_reach_lem x h = (==_iff _ _).0 (words-at sreach_test x sreach_table h)

quotient_ge : (x d e : ℕ) → 0 < d → d ≤ e → x ≤ e * x / d
quotient_ge x d e pos le = grind arith

scaled : (c k : ℕ) → 20000 ≤ k → c * 20000 ≤ c * k
scaled c k h = grind arith

slow_ge : (c k : ℕ) → 20000 ≤ k → c * k + 10000 < 2 ^ 32 → c ≤ (c * k + 10000) % 2 ^ 32 / 20000
slow_ge c k h nowrap = omega (arith, scaled c k h)

-- With link-quality estimation the cost is at least that of the interface, as long as the product
-- with the delay does not wrap.
pub lq_cost-ge :
    (ifcost reach delay : ℕ)
    → ifcost ≤ infinity
    → reach < 2 ^ 16
    → 0x8000 * ifcost / (smoothed_reach reach + 1) * (delay - 20000) + 10000 < 2 ^ 32
    → (ifcost ≤ lq_cost ifcost reach delay) × (lq_cost ifcost reach delay ≤ infinity)
unfolding lq_cost
lq_cost-ge ifcost reach delay hc hr nowrap = ground (
  arith,
  quotient_ge ifcost (smoothed_reach reach + 1) 0x8000 (omega arith)
      (omega (arith, smoothed_reach_lem reach hr)),
  slow_ge (0x8000 * ifcost / (smoothed_reach reach + 1)) (delay - 20000),
)

-- The value of the penalty.
abbrev ramp : Interface → ℕ → ℕ
ramp ifp rtt =
    if leb rtt ifp.rtt_min
    then 0
    else (if leb rtt ifp.rtt_max
        then ifp.max_rtt_penalty * (rtt - ifp.rtt_min) / (ifp.rtt_max - ifp.rtt_min)
        else ifp.max_rtt_penalty)

share_le : (p x d : ℕ) → x ≤ d → p * x / d ≤ p
share_le p x d h = grind arith

share_mono : (p x y d : ℕ) → x ≤ y → p * x / d ≤ p * y / d
share_mono p x y d h = grind arith

penalty-ramp :
    (ifp : Interface) (rtt : ℕ)
    → ifp.max_rtt_penalty < 2 ^ 31
    → penalty ifp rtt ≡ some (ramp ifp rtt)
unfolding penalty
penalty-ramp ifp rtt small =
    ground (arith, share_le ifp.max_rtt_penalty (rtt - ifp.rtt_min) (ifp.rtt_max - ifp.rtt_min))

ramp_le : (ifp : Interface) (rtt : ℕ) → ramp ifp rtt ≤ ifp.max_rtt_penalty
ramp_le ifp rtt =
    ground (arith, share_le ifp.max_rtt_penalty (rtt - ifp.rtt_min) (ifp.rtt_max - ifp.rtt_min))

ramp_mono : (ifp : Interface) (rtt rtt' : ℕ) → rtt ≤ rtt' → ramp ifp rtt ≤ ramp ifp rtt'
ramp_mono ifp rtt rtt' le = ground (
  arith,
  share_le ifp.max_rtt_penalty (rtt - ifp.rtt_min) (ifp.rtt_max - ifp.rtt_min),
  share_mono ifp.max_rtt_penalty (rtt - ifp.rtt_min) (rtt' - ifp.rtt_min)
      (ifp.rtt_max - ifp.rtt_min),
)

product : (x y : ℕ) → 256 ≤ y → x ≤ 65534 → y ≤ 65534 → (x * 256 ≤ x * y) × (x * y ≤ 65534 * 65534)
product x y h hx hy = grind arith

-- `etx` is at least the txcost, and the product behind it does not wrap.
etx_bounds :
    (lq : Bool) (a b : ℕ) → a < infinity → b < infinity → (a ≤ etx lq a b) × (etx lq a b < 2 ^ 24)
unfolding etx
etx_bounds lq a b ha hb =
    ground (arith, product (max a 256) (max b 256) (omega arith) (omega arith) (omega arith))

-- The round-trip cost never fails its assertion while the penalty is below 2 ^ 31; it is at most the
-- penalty, and a longer time never costs less.
pub penalty_lem :
    (ifp : Interface) (rtt rtt' : ℕ)
    → ifp.max_rtt_penalty < 2 ^ 31
    → rtt ≤ rtt'
    → (c : ℕ) × (c' : ℕ) × (penalty ifp rtt ≡ some c)
      × (penalty ifp rtt' ≡ some c')
      × (c ≤ c')
      × (c' ≤ ifp.max_rtt_penalty)
penalty_lem ifp rtt rtt' small le = (
  ramp ifp rtt,
  ramp ifp rtt',
  penalty-ramp ifp rtt small,
  penalty-ramp ifp rtt' small,
  ramp_mono ifp rtt rtt' le,
  ramp_le ifp rtt',
)

rttcost_total :
    (now : Timeval) (ifp : Interface) (neigh : Neighbour)
    → ifp.max_rtt_penalty < 2 ^ 31
    → (c : ℕ) × (neighbour_rttcost now ifp neigh ≡ some c) × (c < 2 ^ 31)
unfolding neighbour_rttcost
rttcost_total now ifp neigh small =
    elim (Bool-cases (ifp.max_rtt_penalty == 0 || not (valid_rtt now neigh))) [
      | inl off ↦ (0, rw off, omega arith)
      | inr on ↦ (
        ramp ifp neigh.rtt,
        rw on (penalty-ramp ifp neigh.rtt small),
        omega (arith, ramp_le ifp neigh.rtt),
      )
    ]

-- For an interface whose max_rtt_penalty is below 2 ^ 31 and a neighbour whose txcost is at most
-- INFINITY, the cost is always computed (the assertion on the round-trip cost holds), is at most
-- INFINITY and at least the neighbour's txcost.
pub neighbour_cost-bounds :
    (now : Timeval) (ifp : Interface) (neigh : Neighbour)
    → ifp.max_rtt_penalty < 2 ^ 31
    → neigh.txcost ≤ infinity
    → (c : ℕ) × (neighbour_cost now ifp neigh ≡ some c) × (neigh.txcost ≤ c) × (c ≤ infinity)
unfolding neighbour_cost neighbour_txcost
neighbour_cost-bounds now ifp neigh small tx =
    let (r, er, hr) = rttcost_total now ifp neigh small in
    elim (Bool-cases (not ifp.up)) [
      | inl down ↦ (infinity, rw down, tx, omega arith)
      | inr up ↦ elim (Bool-cases (leb infinity neigh.txcost)) [
        | inl lost ↦ (infinity, rw (up, lost), tx, omega arith)
        | inr sent ↦ elim (Bool-cases (leb infinity (neighbour_rxcost now ifp neigh))) [
          | inl deaf ↦ (infinity, rw (up, sent, deaf), tx, omega arith)
          | inr heard ↦
              let (low, high) =
                etx_bounds ifp.lq neigh.txcost (neighbour_rxcost now ifp neigh) (ground arith)
                  (ground arith) in
              (
                min ((etx ifp.lq neigh.txcost (neighbour_rxcost now ifp neigh) + r) % 2 ^ 32)
                    infinity,
                rw (up, sent, heard, er),
                omega (arith, low, high, hr),
                omega arith,
              )
        ]
      ]
    ]

-- The cost is finite only if the interface is up, the neighbour's txcost is finite, and its rxcost is.
pub neighbour_cost-finite :
    (now : Timeval) (ifp : Interface) (neigh : Neighbour) (c : ℕ)
    → neighbour_cost now ifp neigh ≡ some c
    → c < infinity
    → (ifp.up ≡ true) × (neigh.txcost < infinity) × (neighbour_rxcost now ifp neigh < infinity)
unfolding neighbour_cost neighbour_txcost
neighbour_cost-finite now ifp neigh c e fin = ground arith
