-- ===== src/Message/Send/RoundTrip/Sendable.antt =====
-- message.c: what an update can carry, and the parts of its message.
use rabeld.Prelude.{
  ℕ, zero, suc, ◌+◌, ◌-◌, ◌*◌, ◌/◌, ◌%◌, ◌^◌, ◌≤◌, ◌<◌, ◌≡◌, ◌⊎◌, inl, inr, refl, arith, true,
  false, ◌==◌, if◌then◌else◌, Bool-cases, Option-cases, List, [], ◌∷◌, ◌++◌, drop, length,
  length-append, Option, some, none, ap, ◌∙◌,
}
use rabeld.Util.Prefix.{v4mapped}
use rabeld.Resend.{Destination}
use rabeld.Message.Prefix.{bytes}
use rabeld.Message.Prefix.Laws.{IsPrefix, length-bytes}
use rabeld.Message.Parse.{Link, Heard}
use rabeld.Message.Send.{
  Sender, Buffered, is_v4, omitted_bytes, real_plen, real_prefix, size_of, channel_bytes,
  update_body, update_length,
}
use rabeld.Message.Send.RoundTrip.{v4_address, common_bytes-le}
use rabeld.Message.Send.RoundTrip.Update.{header}

pub ntohs-htons : (v : ℕ) → v < 2 ^ 16 → v / 256 % 256 * 256 + v % 256 ≡ v
ntohs-htons v h = omega arith

pub drop_written : (n : ℕ) (p q : List ℕ) → length p ≡ n → drop n (p ++ q) ≡ q
drop_written zero [] q e = refl
drop_written zero (x ∷ p) q e = absurd (omega arith)
drop_written (suc n) [] q e = absurd (omega arith)
drop_written (suc n) (x ∷ p) q e = drop_written n p q (omega arith)

module _ (t x len b₆ b₇ b₈ b₉ b₁₀ b₁₁ ae plen omitted : ℕ) (p q : List ℕ) where
  -- What stands after the first rc bytes past the fixed fields.
  pub drop-header :
      (rc k : ℕ)
      → length p ≡ rc
      → k ≡ suc (suc (suc (suc (suc (suc (suc (suc (suc (suc (suc (suc rc)))))))))))
      → drop k (header t x len b₆ b₇ b₈ b₉ b₁₀ b₁₁ ae plen omitted (p ++ q)) ≡ q
  drop-header rc k e ek =
      ap (λ j. drop j (header t x len b₆ b₇ b₈ b₉ b₁₀ b₁₁ ae plen omitted (p ++ q))) ek
      ∙ drop_written rc p q e

-- What can be sent: prefixes with zeros after their length, where an IPv4 prefix is one of 96 bits
-- or more, a source prefix of the same family, and numbers and channels that fit.
pub record IsSendable (ifp : Sender) (d : Destination) (seqno metric : ℕ)
    (channels : Option (List ℕ)) : Type 0 where
  pub prefix : IsPrefix d.prefix d.plen
  pub mapped : v4mapped d.prefix ≡ is_v4 d
  pub source : (d.src_plen ≡ 0) ⊎ IsPrefix d.src_prefix d.src_plen
  pub source_family :
      (is_v4 d ≡ false) ⊎ ((d.src_plen ≡ 0) ⊎ ((v4mapped d.src_prefix ≡ true) × (96 ≤ d.src_plen)))
  pub seqno_fits : seqno < 2 ^ 16
  pub metric_fits : metric < 2 ^ 16
  pub interval_fits : (ifp.update_interval + 5) / 10 < 2 ^ 16
  pub channels_fit : length (channel_bytes channels) ≤ 22

pub omitted_bytes-le :
    (k : Buffered) (d : Destination) → omitted_bytes k d ≤ size_of (real_plen d d.plen)
omitted_bytes-le k d = elim (Option-cases k.prefix) [
  | inl e ↦ rw e (omega arith)
  | inr (q, e) ↦ elim (Bool-cases (is_v4 d)) [
    | inl v ↦ rw (e, v) (omega arith)
    | inr n ↦ rw (e, n) (omega (arith, common_bytes-le (d.plen / 8) q d.prefix))
  ]
]

-- The next hop that a receiver takes, for the sender's IPv4 address a.
abbrev pub received_nh : Link → List ℕ → Destination → Heard → List ℕ
received_nh link a d h =
    if is_v4 d then v4_address a else (elim (h.v6_nh) [ none ↦ link.address | some nh ↦ nh ])

pub length-channel_bytes :
    (c : Option (List ℕ)) → length (channel_bytes c) ≡ (elim c [ none ↦ 0 | some l ↦ length l + 2 ])
length-channel_bytes none = refl
length-channel_bytes (some l) = omega arith

abbrev source_bytes : Destination → List ℕ
source_bytes d =
    if d.src_plen == 0
    then []
    else bytes (size_of (real_plen d d.src_plen)) (real_prefix d d.src_prefix)

length-source_bytes :
    (d : Destination)
    → length (source_bytes d) ≡ (if d.src_plen == 0 then 0 else size_of (real_plen d d.src_plen))
length-source_bytes d = elim (Bool-cases (d.src_plen == 0)) [
  | inl e ↦ rw e refl
  | inr n ↦ rw n (length-bytes (size_of (real_plen d d.src_plen)) (real_prefix d d.src_prefix))
]

-- The length that is announced is that of the fields.
pub length-update_body :
    (ifp : Sender) (id : List ℕ) (d : Destination) (seqno metric : ℕ) (channels : Option (List ℕ))
    (k : Buffered)
    → update_length (omitted_bytes k d) d channels
      ≡ length (update_body ifp (omitted_bytes k d) id d seqno metric channels k)
unfolding update_body
length-update_body ifp id d seqno metric channels k = omega (
  arith,
  length-append
      (bytes (size_of (real_plen d d.plen) - omitted_bytes k d)
        (drop (omitted_bytes k d) (real_prefix d d.prefix)))
      (source_bytes d ++ channel_bytes channels),
  length-append (source_bytes d) (channel_bytes channels),
  length-source_bytes d,
  length-bytes (size_of (real_plen d d.plen) - omitted_bytes k d)
      (drop (omitted_bytes k d) (real_prefix d d.prefix)),
  length-channel_bytes channels,
  omitted_bytes-le k d,
)
