-- ===== src/Message/Send/RoundTrip/Update.antt =====
-- message.c: an update that really_send_update writes is read back.
use rabeld.Prelude.{
  ℕ, ◌-◌, ◌/◌, ◌≤◌, ◌<◌, ◌≡◌, inl, inr, refl, arith, Bool, true, false, ltb, ◌==◌, ◌||◌,
  if◌then◌else◌, Bool-cases, Option-cases, List, ◌∷◌, ◌++◌, drop, some, none, subst, sym, ◌∙◌,
}
use rabeld.Util.Prefix.{v4mapped}
use rabeld.Resend.{Destination}
use rabeld.Message.Prefix.{bytes, network_prefix}
use rabeld.Message.Prefix.Laws.{
  IsPrefix, network_prefix-whole, network_prefix-omitted, network_prefix-v4,
}
use rabeld.Message.Parse.{Heard, update_prefix}
use rabeld.Message.Send.{
  Buffered, common_bytes, is_v4, omitted_bytes, real_plen, real_prefix, size_of,
}
use rabeld.Message.Send.RoundTrip.{PrefixAgrees, common_bytes-le, common_bytes-get_or}

-- The fields of an update up to its prefix, as update_prefix reads them.
module _ (t x len b₆ b₇ b₈ b₉ b₁₀ b₁₁ : ℕ) where
  abbrev pub header : ℕ → ℕ → ℕ → List ℕ → List ℕ
  header ae plen omitted p = t ∷ len ∷ ae ∷ x ∷ plen ∷ omitted ∷ b₆ ∷ b₇ ∷ b₈ ∷ b₉ ∷ b₁₀ ∷ b₁₁ ∷ p

  after_prefix :
      (h : Heard) (q : List ℕ) (plen omitted : ℕ) (p : List ℕ)
      → h.v6_prefix ≡ some q
      → update_prefix (header 2 plen omitted p) len h
        ≡ network_prefix 2 (some plen) omitted p (some q) (len - 10)
  unfolding update_prefix
  after_prefix h q plen omitted p e = rw (e, or_true (omitted == 0)) refl
    where
      or_true : (b : Bool) → b || true ≡ true
      or_true b = ground arith

  module _ (d : Destination) (k : Buffered) (h : Heard) (rest : List ℕ)
      (normal : IsPrefix d.prefix d.plen) (mapped : v4mapped d.prefix ≡ is_v4 d)
      (synced : PrefixAgrees k.prefix h) where
    -- The number of bytes of the prefix that are sent.
    abbrev sent : ℕ
    sent = size_of (real_plen d d.plen) - omitted_bytes k d

    abbrev ReadBack : ℕ → Type 0
    ReadBack omitted =
        update_prefix
          (header (if is_v4 d then 1 else 2) (real_plen d d.plen) omitted (
            bytes (size_of (real_plen d d.plen) - omitted) (drop omitted (real_prefix d d.prefix))
            ++ rest))
          len h
        ≡ some (d.prefix, size_of (real_plen d d.plen) - omitted)

    minus_zero : (n : ℕ) → n - 0 ≡ n
    minus_zero n = omega arith

    v4_read : is_v4 d ≡ true → 96 ≤ d.plen → size_of (d.plen - 96) ≤ len - 10 → ReadBack 0
    unfolding update_prefix
    v4_read v le room =
        rw (v, minus_zero (size_of (d.plen - 96)))
          (network_prefix-v4 d.prefix rest d.plen (len - 10) h.v4_prefix normal le (mapped ∙ v)
            room)

    whole_read : is_v4 d ≡ false → size_of d.plen ≤ len - 10 → ReadBack 0
    unfolding update_prefix
    whole_read v room =
        rw (v, minus_zero (size_of d.plen))
          (network_prefix-whole d.prefix rest d.plen (len - 10) h.v6_prefix normal room)

    omitted_read :
        (q : List ℕ)
        → is_v4 d ≡ false
        → h.v6_prefix ≡ some q
        → v4mapped q ≡ false
        → 0 < common_bytes (d.plen / 8) q d.prefix
        → size_of d.plen - common_bytes (d.plen / 8) q d.prefix ≤ len - 10
        → ReadBack (common_bytes (d.plen / 8) q d.prefix)
    omitted_read q v e v6 pos room = rw v (
        after_prefix h q d.plen (common_bytes (d.plen / 8) q d.prefix) _ e
        ∙ network_prefix-omitted d.prefix q rest d.plen (common_bytes (d.plen / 8) q d.prefix)
            (len - 10) normal pos (common_bytes-le (d.plen / 8) q d.prefix) room v6
            (λ j lt. common_bytes-get_or (d.plen / 8) q d.prefix j lt))

    v4-long : is_v4 d ≡ true → 96 ≤ d.plen
    unfolding is_v4
    v4-long v = ground arith

    none_omitted-v4 : is_v4 d ≡ true → omitted_bytes k d ≡ 0
    none_omitted-v4 v = elim (Option-cases k.prefix) [
      | inl e ↦ rw e refl
      | inr (q, e) ↦ rw (e, v) refl
    ]

    none_omitted-first : k.prefix ≡ none → omitted_bytes k d ≡ 0
    none_omitted-first e = rw e refl

    omitted-some :
        (q : List ℕ)
        → is_v4 d ≡ false
        → k.prefix ≡ some q
        → omitted_bytes k d ≡ common_bytes (d.plen / 8) q d.prefix
    omitted-some q v e = rw (e, v) refl

    known_prefix : (q : List ℕ) → k.prefix ≡ some q → (h.v6_prefix ≡ some q) × (v4mapped q ≡ false)
    known_prefix q e = subst (λ o. PrefixAgrees o h) e synced

    abbrev Fits : ℕ → ℕ → Type 0
    Fits plen omitted = size_of plen - omitted ≤ len - 10

    room_whole : (plen : ℕ) → Fits plen 0 → size_of plen ≤ len - 10
    room_whole plen room = omega arith

    none_common :
        (q : List ℕ)
        → ltb 0 (common_bytes (d.plen / 8) q d.prefix) ≡ false
        → common_bytes (d.plen / 8) q d.prefix ≡ 0
    none_common q z = ground arith

    -- The prefix is read back whatever the receiver remembers.
    pub prefix_read :
        size_of (real_plen d d.plen) - omitted_bytes k d ≤ len - 10 → ReadBack (omitted_bytes k d)
    prefix_read room = elim (Bool-cases (is_v4 d)) [
      | inl v ↦
          let z : omitted_bytes k d ≡ 0 = none_omitted-v4 v in
          let fits : Fits (d.plen - 96) 0 = rw (v, z) at room in
          subst ReadBack (sym z) (v4_read v (v4-long v) (room_whole (d.plen - 96) fits))
      | inr n ↦ elim (Option-cases k.prefix) [
        | inl e ↦
            let z : omitted_bytes k d ≡ 0 = none_omitted-first e in
            let fits : Fits d.plen 0 = rw (n, z) at room in
            subst ReadBack (sym z) (whole_read n (room_whole d.plen fits))
        | inr (q, e) ↦
            let z : omitted_bytes k d ≡ common_bytes (d.plen / 8) q d.prefix = omitted-some q n e in
            let fits : Fits d.plen (common_bytes (d.plen / 8) q d.prefix) = rw (n, z) at room in
            let (known, v6) = known_prefix q e in
            subst ReadBack (sym z)
              (elim (Bool-cases (ltb 0 (common_bytes (d.plen / 8) q d.prefix))) [
                | inl some_common ↦ omitted_read q n known v6 (ground (arith, some_common)) fits
                | inr different ↦
                    let c : common_bytes (d.plen / 8) q d.prefix ≡ 0 = none_common q different in
                    let whole : Fits d.plen 0 = rw c at fits in
                    subst ReadBack (sym c) (whole_read n (room_whole d.plen whole))
              ])
      ]
    ]
