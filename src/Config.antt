-- ===== src/Config.antt =====
-- configuration.c and configuration.h: the language of the configuration file and the filters that
-- it sets up. A text is the list of its bytes; where a function has the look-ahead character and the
-- stream, its argument here is the bytes from the look-ahead on, and the end of the list is EOF.
pub mod Lexer
pub mod Matching
pub mod Values
pub mod FilterLine
pub mod IfConf
pub mod Options
pub mod Line
use rabeld.Prelude.{ℕ, List, Option}
use rabeld.Prelude.Int.{ℤ}

-- AF_UNSPEC, AF_INET and AF_INET6
pub data Family : Type 0 where
  af_unspec af_inet af_inet6 : Family

-- struct filter_result; NULL is `none`.
pub record FilterResult : Type 0 where
  pub src_prefix : Option (List ℕ)
  pub add_metric : ℕ
  pub table : ℕ
  pub src_plen : ℕ

pub record Filter : Type 0 where
  pub ifname : Option (List ℕ)
  pub af : Family
  pub ifindex : ℕ
  pub id : Option (List ℕ)
  pub prefix : Option (List ℕ)
  pub src_prefix : Option (List ℕ)
  pub plen : ℕ
  pub plen_ge : ℕ
  pub plen_le : ℕ
  pub src_plen : ℕ
  pub src_plen_ge : ℕ
  pub src_plen_le : ℕ
  pub proto : ℤ
  pub neigh : Option (List ℕ)
  pub action : FilterResult

-- The static variables with the filters, each a list that `next` chains.
pub record Filters : Type 0 where
  pub input_filters : List Filter
  pub output_filters : List Filter
  pub redistribute_filters : List Filter
  pub install_filters : List Filter
