-- ===== src/Route.antt =====
-- route.c and route.h: the routes to each destination, their metrics and the feasibility condition.
pub mod Feasible
pub mod Metric
pub mod Table
pub mod Select
pub mod Announce
pub mod Consider
pub mod Change
pub mod Update
pub mod Receive
pub mod Kernel
use rabeld.Prelude.{ℕ, Bool, List}

-- `handle` is the address at which the route stands, `src` that of its source and `neigh` that of
-- its neighbour; `channels_len` is the length of `channels`.
pub record BabelRoute : Type 0 where
  pub handle : ℕ
  pub src : ℕ
  pub refmetric : ℕ
  pub cost : ℕ
  pub add_metric : ℕ
  pub seqno : ℕ
  pub neigh : ℕ
  pub nexthop : List ℕ
  pub time : ℕ
  pub hold_time : ℕ
  pub smoothed_metric : ℕ
  pub smoothed_metric_time : ℕ
  pub installed : Bool
  pub channels : List ℕ
