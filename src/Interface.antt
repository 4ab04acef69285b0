-- ===== src/Interface.antt =====
-- interface.h: the fields of `struct interface` that the other parts read. The bits of `flags` are
-- Booleans: IF_UP, IF_LQ, IF_SPLIT_HORIZON, IF_FARAWAY and IF_TIMESTAMPS.
use rabeld.Prelude.{ℕ, Bool}
use rabeld.Prelude.Int.{ℤ}

pub record Interface : Type 0 where
  pub ifindex : ℕ
  pub up : Bool
  pub lq : Bool
  pub split_horizon : Bool
  pub faraway : Bool
  pub timestamps : Bool
  pub cost : ℕ
  pub channel : ℤ
  pub hello_interval : ℕ
  pub update_interval : ℕ
  pub rtt_decay : ℕ
  pub rtt_min : ℕ
  pub rtt_max : ℕ
  pub max_rtt_penalty : ℕ
