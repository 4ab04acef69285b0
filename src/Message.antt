-- ===== src/Message.antt =====
-- message.c and message.h: the TLVs of the protocol, parsed and sent.
pub mod Prefix
pub mod SubTlv
pub mod Parse
pub mod Send
pub mod Updates
pub mod Request
use rabeld.Prelude.{ℕ, ◌+◌, ◌*◌, ◌/◌, ◌%◌, List, [], ◌∷◌, get_or, drop}

-- DO_NTOHS and DO_NTOHL
abbrev pub ntohs : List ℕ → ℕ
ntohs p = get_or p 0 0 * 256 + get_or p 1 0

abbrev pub ntohl : List ℕ → ℕ
ntohl p = ntohs p * 0x10000 + ntohs (drop 2 p)

-- DO_HTONS
abbrev pub htons : ℕ → List ℕ
htons v = v / 256 % 256 ∷ v % 256 ∷ []

-- MAX_CHANNEL_HOPS
abbrev pub max_channel_hops : ℕ
max_channel_hops = 20
