-- ===== src/Message/Prefix/Laws.antt =====
-- message.c: a compressed prefix is read back, with the bytes that it shares with the last one.
use rabeld.Prelude.{
  ℕ, zero, suc, ◌+◌, ◌-◌, ◌/◌, ◌%◌, ◌≤◌, ◌<◌, ◌≡◌, refl, arith, Ordering, true, false, ltb, leb,
  ◌==◌, if◌then◌else◌, Bool-cases, inl, inr, List, [], ◌∷◌, ◌++◌, take, drop, get_or, length, ap,
  sym, ◌∙◌, Option, some,
}
use rabeld.Prelude.Bytes.{memcmp, memcmp-eq-get}
use rabeld.Util.Prefix.{v4prefix, v4mapped, normalize_prefix}
use rabeld.Message.Prefix.{bytes, fill, full_length, network_prefix, network_prefix_of}

pub length-bytes : (n : ℕ) (p : List ℕ) → length (bytes n p) ≡ n
length-bytes zero p = refl
length-bytes (suc n) p = ap suc (length-bytes n (drop 1 p))

drop_one-drop : (k : ℕ) (p : List ℕ) → drop 1 (drop k p) ≡ drop (suc k) p
drop_one-drop zero p = refl
drop_one-drop (suc k) [] = refl
drop_one-drop (suc k) (x ∷ p) = drop_one-drop k p

pub get_or-drop : (k : ℕ) (p : List ℕ) (i : ℕ) → get_or (drop k p) i 0 ≡ get_or p (k + i) 0
get_or-drop zero p i = ap (λ k. get_or p k 0) (omega arith)
get_or-drop (suc k) [] i = refl
get_or-drop (suc k) (x ∷ p) i = get_or-drop k p i ∙ ap (λ j. get_or (x ∷ p) j 0) step
  where
    step : suc (k + i) ≡ suc k + i
    step = omega arith

-- A byte of what is read.
pub get_or-bytes : (n : ℕ) (p : List ℕ) (i : ℕ) → i < n → get_or (bytes n p) i 0 ≡ get_or p i 0
get_or-bytes zero p i h = absurd (omega arith)
get_or-bytes (suc n) p zero h = refl
get_or-bytes (suc n) p (suc i) h =
    get_or-bytes n (drop 1 p) i (omega arith)
    ∙ get_or-drop 1 p i
    ∙ ap (λ k. get_or p k 0) (omega arith)

-- Buffers of the same length with the same bytes are equal.
pub bytes-ext :
    (p q : List ℕ)
    → length p ≡ length q
    → ((i : ℕ) → i < length p → get_or p i 0 ≡ get_or q i 0)
    → p ≡ q
bytes-ext [] [] e h = refl
bytes-ext [] (y ∷ q) e h = absurd (omega arith)
bytes-ext (x ∷ p) [] e h = absurd (omega arith)
bytes-ext (x ∷ p) (y ∷ q) e h =
    rw (h 0 (omega arith), bytes-ext p q (omega arith) (λ i lt. h (suc i) (omega arith))) refl

pub get_or-append :
    (p q : List ℕ) (i : ℕ)
    → get_or (p ++ q) i 0 ≡ (if ltb i (length p) then get_or p i 0 else get_or q (i - length p) 0)
get_or-append [] q i = ground arith
get_or-append (x ∷ p) q zero = ground arith
get_or-append (x ∷ p) q (suc i) = get_or-append p q i ∙ ground arith

pub get_or_end : (p : List ℕ) (i : ℕ) → length p ≤ i → get_or p i 0 ≡ 0
get_or_end [] i h = refl
get_or_end (x ∷ p) zero h = absurd (omega arith)
get_or_end (x ∷ p) (suc i) h = get_or_end p i (omega arith)

-- What was written stands in front of what follows it.
pub bytes-append : (n : ℕ) (p q : List ℕ) → length p ≡ n → bytes n (p ++ q) ≡ p
bytes-append zero [] q e = refl
bytes-append zero (x ∷ p) q e = absurd (omega arith)
bytes-append (suc n) [] q e = absurd (omega arith)
bytes-append (suc n) (x ∷ p) q e = ap (λ t. x ∷ t) (bytes-append n p q (omega arith))

take-agree :
    (n : ℕ) (p q : List ℕ)
    → length p ≡ length q
    → ((i : ℕ) → i < n → get_or p i 0 ≡ get_or q i 0)
    → take n p ≡ take n q
take-agree zero p q e h = refl
take-agree (suc n) [] [] e h = refl
take-agree (suc n) [] (y ∷ q) e h = absurd (omega arith)
take-agree (suc n) (x ∷ p) [] e h = absurd (omega arith)
take-agree (suc n) (x ∷ p) (y ∷ q) e h =
    rw (h 0 (omega arith), take-agree n p q (omega arith) (λ i lt. h (suc i) (omega arith))) refl

-- normalize_prefix looks at the bytes that `plen` covers only.
normalize_prefix-agree :
    (p q : List ℕ) (plen : ℕ)
    → length p ≡ length q
    → ((i : ℕ) → i < (plen + 7) / 8 → get_or p i 0 ≡ get_or q i 0)
    → normalize_prefix p plen ≡ normalize_prefix q plen
unfolding normalize_prefix
normalize_prefix-agree p q plen e h = elim (Bool-cases (leb 128 plen)) [
  | inl whole ↦ rw whole (take-agree 16 p q e (λ i lt. h i (ground arith)))
  | inr part ↦
      rw (part, take-agree (plen / 8) p q e (λ i lt. h i (omega arith)))
        (elim (Bool-cases (plen % 8 == 0)) [
          | inl r ↦ rw r refl
          | inr r ↦ rw (r, h (plen / 8) (ground arith)) refl
        ])
]

-- A prefix of 16 bytes, with zeros after its length.
pub record IsPrefix (q : List ℕ) (plen : ℕ) : Type 0 where
  pub length_is : length q ≡ 16
  pub normal : normalize_prefix q plen ≡ q
  pub short : plen ≤ 128

-- The buffer, once the omitted bytes and those of the message stand in it.
abbrev joined : List ℕ → ℕ → ℕ → List ℕ → List ℕ
joined d omitted pb q = fill (bytes omitted d ++ bytes (pb - omitted) (drop omitted q))

length-fill : (p : List ℕ) → length (fill p) ≡ 16
unfolding fill
length-fill p = refl

get_or-fill : (p : List ℕ) (i : ℕ) → i < 16 → get_or (fill p) i 0 ≡ get_or p i 0
unfolding fill
get_or-fill p i h = get_or-bytes 16 p i h

joined-agree :
    (d q : List ℕ) (omitted pb i : ℕ)
    → omitted ≤ pb
    → pb ≤ 16
    → ((j : ℕ) → j < omitted → get_or d j 0 ≡ get_or q j 0)
    → i < pb
    → get_or (joined d omitted pb q) i 0 ≡ get_or q i 0
joined-agree d q omitted pb i le le16 same lt =
    get_or-fill (bytes omitted d ++ bytes (pb - omitted) (drop omitted q)) i (omega arith)
    ∙ get_or-append (bytes omitted d) (bytes (pb - omitted) (drop omitted q)) i
    ∙ rw (length-bytes omitted d) (elim (Bool-cases (ltb i omitted)) [
      | inl y ↦ rw y (get_or-bytes omitted d i (ground arith) ∙ same i (ground arith))
      | inr n ↦ rw n (
          get_or-bytes (pb - omitted) (drop omitted q) (i - omitted) (ground arith)
          ∙ get_or-drop omitted q (i - omitted)
          ∙ ap (λ k. get_or q k 0) (ground (arith, n)))
    ])

normalize-joined :
    (d q : List ℕ) (omitted plen : ℕ)
    → IsPrefix q plen
    → omitted ≤ (plen + 7) / 8
    → ((j : ℕ) → j < omitted → get_or d j 0 ≡ get_or q j 0)
    → normalize_prefix (joined d omitted ((plen + 7) / 8) q) plen ≡ q
normalize-joined d q omitted plen h le same =
    normalize_prefix-agree (joined d omitted ((plen + 7) / 8) q) q plen
      (length-fill (bytes omitted d ++ bytes ((plen + 7) / 8 - omitted) (drop omitted q))
        ∙ sym h.length_is)
      (λ i lt. joined-agree d q omitted ((plen + 7) / 8) i le (omega (arith, h.short)) same lt)
    ∙ h.normal

-- Where the n bytes of q from k on were written, they are read.
written : (n k : ℕ) (q rest : List ℕ) → bytes n (bytes n (drop k q) ++ rest) ≡ bytes n (drop k q)
written n k q rest = bytes-append n (bytes n (drop k q)) rest (length-bytes n (drop k q))

-- The result, once the switch has been followed.
followed :
    (ae plen omitted len r : ℕ) (p x q : List ℕ) (dp : Option (List ℕ))
    → (plen + 7) / 8 ≤ 16
    → network_prefix_of ae ((plen + 7) / 8) omitted p dp len ≡ some (x, r)
    → normalize_prefix x (full_length ae (some plen)) ≡ q
    → network_prefix ae (some plen) omitted p dp len ≡ some (q, r)
unfolding network_prefix
followed ae plen omitted len r p x q dp le e n = rw (lt_false, e, n) refl
  where
    lt_false : ltb 16 ((plen + 7) / 8) ≡ false
    lt_false = ground arith

-- An IPv6 prefix sent whole is read back, with the number of its bytes.
pub network_prefix-whole :
    (q rest : List ℕ) (plen len : ℕ) (dp : Option (List ℕ))
    → IsPrefix q plen
    → (plen + 7) / 8 ≤ len
    → network_prefix 2 (some plen) 0 (bytes ((plen + 7) / 8) q ++ rest) dp len
      ≡ some (q, (plen + 7) / 8)
unfolding network_prefix_of
network_prefix-whole q rest plen len dp h room =
    followed 2 plen 0 len ((plen + 7) / 8) (bytes ((plen + 7) / 8) q ++ rest)
      (fill (bytes ((plen + 7) / 8) q)) q dp (omega (arith, h.short))
      (rw (written ((plen + 7) / 8) 0 q rest) (ground arith))
      (rw minus (normalize-joined [] q 0 plen h (omega arith) (λ j lt. absurd (omega arith))))
  where
    minus : (plen + 7) / 8 ≡ (plen + 7) / 8 - 0
    minus = omega arith

-- An IPv6 prefix that begins with the omitted bytes of the last one is read back.
pub network_prefix-omitted :
    (q d rest : List ℕ) (plen omitted len : ℕ)
    → IsPrefix q plen
    → 0 < omitted
    → omitted ≤ plen / 8
    → (plen + 7) / 8 - omitted ≤ len
    → v4mapped d ≡ false
    → ((j : ℕ) → j < omitted → get_or d j 0 ≡ get_or q j 0)
    → network_prefix 2
        (some plen)
        omitted
        (bytes ((plen + 7) / 8 - omitted) (drop omitted q) ++ rest)
        (some d)
        len
      ≡ some (q, (plen + 7) / 8 - omitted)
unfolding network_prefix_of
network_prefix-omitted q d rest plen omitted len h pos le room v6 same =
    followed 2 plen omitted len ((plen + 7) / 8 - omitted)
      (bytes ((plen + 7) / 8 - omitted) (drop omitted q) ++ rest)
      (joined d omitted ((plen + 7) / 8) q) q (some d) (omega (arith, h.short))
      (rw (written ((plen + 7) / 8 - omitted) omitted q rest, v6) (ground (arith, h.short)))
      (normalize-joined d q omitted plen h (omega arith) same)

-- An IPv4 prefix is sent without its first 12 bytes, and read back.
pub network_prefix-v4 :
    (q rest : List ℕ) (plen len : ℕ) (dp : Option (List ℕ))
    → IsPrefix q plen
    → 96 ≤ plen
    → v4mapped q ≡ true
    → (plen - 96 + 7) / 8 ≤ len
    → network_prefix 1 (some (plen - 96)) 0 (bytes ((plen - 96 + 7) / 8) (drop 12 q) ++ rest) dp len
      ≡ some (q, (plen - 96 + 7) / 8)
unfolding network_prefix_of v4mapped
network_prefix-v4 q rest plen len dp h v4 m room =
    followed 1 (plen - 96) 0 len ((plen - 96 + 7) / 8)
      (bytes ((plen - 96 + 7) / 8) (drop 12 q) ++ rest)
      (fill (take 12 v4prefix ++ bytes ((plen - 96 + 7) / 8) (drop 12 q))) q dp
      (omega (arith, h.short))
      (rw (written ((plen - 96 + 7) / 8) 12 q rest) (ground (arith, h.short)))
      (rw (total, count)
        (normalize-joined v4prefix q 12 plen h (omega arith)
          (λ j lt. sym (memcmp-eq-get 12 q v4prefix mapped j lt))))
  where
    total : plen - 96 + 96 ≡ plen
    total = omega arith

    count : (plen - 96 + 7) / 8 ≡ (plen + 7) / 8 - 12
    count = omega arith

    mapped : memcmp 12 q v4prefix ≡ Ordering.eq
    mapped = ground arith
