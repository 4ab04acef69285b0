-- ===== src/Message/Send/RoundTrip.antt =====
-- message.c: what really_send_update writes, parse_packet reads.
pub mod Update
pub mod State
pub mod Body
pub mod Sendable
pub mod Fields
pub mod Written
pub mod Stream
pub mod Delivers
use rabeld.Prelude.{
  ℕ, zero, suc, ◌+◌, ◌-◌, ◌*◌, ◌/◌, ◌%◌, ◌^◌, ◌≤◌, ◌<◌, ◌≡◌, ◌⊎◌, inl, inr, refl, arith, Ordering,
  Bool, true, false, ltb, leb, ◌==◌, ◌&&◌, ◌||◌, not, if◌then◌else◌, Bool-cases, List, [], ◌∷◌,
  ◌++◌, take, get_or, drop, length, Option, some, none, ap, sym, ◌∙◌,
}
use rabeld.Prelude.Bytes.{memcmp, memcmp-eq-get, mem_eq}
use rabeld.Util.Prefix.{v4prefix, zeroes, v4mapped, normalize_prefix}
use rabeld.Resend.{Destination}
use rabeld.Message.Prefix.{bytes, fill, network_prefix, network_address, network_prefix_of}
use rabeld.Message.Prefix.Laws.{length-bytes, bytes-ext, get_or-bytes, get_or-drop, IsPrefix}
use rabeld.Message.Parse.{Link, Heard, Call, parse_message, parse_nh, parse_router_id}
use rabeld.Message.Parse.Loop.{Reads, Reads-message, Reads-nothing}
use rabeld.Message.Send.{
  Buffered, common_bytes, is_v4, known_nh, known_id, implies_id, nh_message, id_message,
}

-- The IPv4 address a as an IPv6 one.
abbrev pub v4_address : List ℕ → List ℕ
v4_address a = take 12 v4prefix ++ bytes 4 a

-- What a receiver has heard is what the sender believes that it knows.
abbrev pub NhAgrees : Option (List ℕ) → Heard → Type 0
NhAgrees none h = Unit
NhAgrees (some a) h = (h.v4_nh ≡ some (v4_address a)) × (length a ≡ 4)

abbrev pub IdAgrees : Option (List ℕ) → Heard → Type 0
IdAgrees none h = Unit
IdAgrees (some i) h = (h.router_id ≡ some i) × (length i ≡ 8)

abbrev pub PrefixAgrees : Option (List ℕ) → Heard → Type 0
PrefixAgrees none h = Unit
PrefixAgrees (some q) h = (h.v6_prefix ≡ some q) × (v4mapped q ≡ false)

pub record IsSynced (k : Buffered) (h : Heard) : Type 0 where
  pub nh : NhAgrees k.nh h
  pub id : IdAgrees k.id h
  pub prefix : PrefixAgrees k.prefix h

pub bytes-mem_eq : (n : ℕ) (p q : List ℕ) → mem_eq n p q ≡ true → bytes n p ≡ bytes n q
bytes-mem_eq n p q e =
    bytes-ext (bytes n p) (bytes n q) (length-bytes n p ∙ sym (length-bytes n q)) (λ i lt.
      get_or-bytes n p i (omega (arith, length-bytes n p))
      ∙ memcmp-eq-get n p q (ground arith) i (omega (arith, length-bytes n p))
      ∙ sym (get_or-bytes n q i (omega (arith, length-bytes n p))))

pub bytes_self : (n : ℕ) (p : List ℕ) → length p ≡ n → bytes n p ≡ p
bytes_self n p e =
    bytes-ext (bytes n p) p (length-bytes n p ∙ sym e)
      (λ i lt. get_or-bytes n p i (omega (arith, length-bytes n p)))

-- The bytes that are counted are shared.
pub common_bytes-le : (limit : ℕ) (p q : List ℕ) → common_bytes limit p q ≤ limit
unfolding common_bytes
common_bytes-le zero p q = omega arith
common_bytes-le (suc limit) p q = ground (arith, common_bytes-le limit (drop 1 p) (drop 1 q))

pub common_bytes-get_or :
    (limit : ℕ) (p q : List ℕ) (j : ℕ) → j < common_bytes limit p q → get_or p j 0 ≡ get_or q j 0
unfolding common_bytes
common_bytes-get_or zero p q j lt = absurd (omega arith)
common_bytes-get_or (suc limit) p q zero lt = ground arith
common_bytes-get_or (suc limit) p q (suc j) lt =
    sym (get_or-drop 1 p j ∙ ap (λ k. get_or p k 0) one)
    ∙ common_bytes-get_or limit (drop 1 p) (drop 1 q) j (ground arith)
    ∙ get_or-drop 1 q j
    ∙ ap (λ k. get_or q k 0) one
  where
    one : 1 + j ≡ suc j
    one = omega arith

-- The next hop's message.
pub nh_read :
    (link : Link) (h : Heard) (a : List ℕ)
    → Reads link h (7 ∷ 6 ∷ 1 ∷ 0 ∷ bytes 4 a) (record h { v4_nh = some (v4_address a) }) []
nh_read link h a =
    Reads-message link h (record h { v4_nh = some (v4_address a) }) 7 (1 ∷ 0 ∷ bytes 4 a) [] refl
      (λ rest.
        unfold parse_message parse_nh network_address network_prefix network_prefix_of
          normalize_prefix fill in
        refl)

-- The router-id's message.
pub id_read :
    (link : Link) (h : Heard) (id : List ℕ)
    → Reads link h (6 ∷ 10 ∷ 0 ∷ 0 ∷ bytes 8 id) (record h { router_id = some (bytes 8 id) }) []
id_read link h id =
    Reads-message link h (record h { router_id = some (bytes 8 id) }) 6 (0 ∷ 0 ∷ bytes 8 id) [] refl
      (λ rest. unfold parse_message parse_router_id in refl)
