-- ===== src/Resend/Find.antt =====
-- resend.c, resend.h: what is found in the list after an operation.
use rabeld.Prelude.{
  ℕ, ◌≤◌, ◌≡◌, refl, arith, Bool, true, false, ==_iff, List, [], ◌∷◌, Option, some, none,
  Bool-cases, Option-cases, inl, inr, min,
}
use mathlib.Core.Option
use rabeld.Prelude.Bytes.{memcmp_refl}
use rabeld.Util.Prefix.{v6_equal}
use rabeld.Util.Timeval.{Timeval, IsNormal, timeval_minus_msec}
use rabeld.Resend.{
  Kind, request, update, same_kind, Resend, Resends, Destination, resend_match, find_resend,
  find_request, change_found, resend_expired, refresh, replace, new_resend, id_or_zero, Filters,
  recorded, record_resend, expire_mark, satisfy_request, unsatisfied_request, resend_max,
  recompute_resend_time,
}

find_resend-change_found :
    (f : Resend → Resend) (kind : Kind) (d : Destination) (rs : List Resend)
    → ((r : Resend) → resend_match kind d (f r) ≡ resend_match kind d r)
    → find_resend kind d (change_found f kind d rs) ≡ Option.map f (find_resend kind d rs)
unfolding find_resend change_found
find_resend-change_found f kind d [] keeps = refl
find_resend-change_found f kind d (r ∷ rest) keeps = elim (Bool-cases (resend_match kind d r)) [
  | inl m ↦ rw (m, keeps r, m)
  | inr n ↦ rw (n, n) (find_resend-change_found f kind d rest keeps)
]

resend_match-new_resend :
    (now : Timeval) (kind : Kind) (d : Destination) (seqno : ℕ) (id : Option (List ℕ))
    (ifp : Option ℕ) (delay : ℕ)
    → resend_match kind d (new_resend now kind d seqno id ifp delay) ≡ true
unfolding resend_match new_resend v6_equal
resend_match-new_resend now kind d seqno id ifp delay = rw (
  kinds kind,
  (==_iff d.plen d.plen).1 refl,
  (==_iff d.src_plen d.src_plen).1 refl,
  memcmp_refl 16 d.prefix,
  memcmp_refl 16 d.src_prefix,
)
  where
    kinds : (k : Kind) → same_kind k k ≡ true
    kinds request = refl
    kinds update = refl

-- What the entry for a destination holds after it has been recorded.
abbrev pub Holds : Timeval → ℕ → Option (List ℕ) → Resend → Type 0
Holds now seqno id r =
    (r.seqno ≡ seqno) × (r.id ≡ id_or_zero id) × (r.time ≡ now) × (r.max ≡ resend_max)

module _ (filters : Filters) (calloc : Bool) (now : Timeval) (kind : Kind) (d : Destination)
    (seqno : ℕ) (id : Option (List ℕ)) (ifp : Option ℕ) (ifindex delay : ℕ) (s s' : Resends) where
  abbrev changed : Resend → Resend
  changed r = replace id seqno ifp (refresh now (min delay 0xFFFF) r)

  changed_match : (r : Resend) → resend_match kind d (changed r) ≡ resend_match kind d r
  unfolding resend_match replace refresh
  changed_match r = refl

  abbrev Returns : Type 0
  Returns = record_resend filters calloc now kind d seqno id ifp ifindex delay s ≡ (s', recorded)

  -- The list afterwards, by whether there was an entry.
  of_found :
      (r : Resend)
      → find_resend kind d s.to_resend ≡ some r
      → Returns
      → s'.to_resend ≡ change_found changed kind d s.to_resend
  unfolding record_resend
  of_found r er e = ground (arith, er)

  of_new :
      find_resend kind d s.to_resend ≡ none
      → Returns
      → s'.to_resend ≡ new_resend now kind d seqno id ifp (min delay 0xFFFF) ∷ s.to_resend
  unfolding record_resend
  of_new er e = ground (arith, er)

  -- Where record_resend reports that it has recorded a request or an update, the entry that is then
  -- found for it is for the given seqno and router, is of now, and has all its tries left.
  pub find_resend-record_resend :
      record_resend filters calloc now kind d seqno id ifp ifindex delay s ≡ (s', recorded)
      → (r : Resend) × (find_resend kind d s'.to_resend ≡ some r) × Holds now seqno id r
  find_resend-record_resend e = elim (Option-cases (find_resend kind d s.to_resend)) [
    | inl er ↦
        let made : Resend = new_resend now kind d seqno id ifp (min delay 0xFFFF) in
        (
          made,
          (rw (of_new er e) (
              unfold find_resend in
              rw (resend_match-new_resend now kind d seqno id ifp (min delay 0xFFFF)) refl)),
          (unfold new_resend in (refl, refl, refl, refl)),
        )
    | inr (r, er) ↦ (
      changed r,
      rw (of_found r er e, find_resend-change_found changed kind d s.to_resend changed_match, er)
          refl,
      (unfold replace refresh in (refl, refl, refl, refl)),
    )
  ]

-- Every entry's time is normal.
abbrev pub AreNormal : List Resend → Type 0
AreNormal [] = Unit
AreNormal (r ∷ rest) = IsNormal r.time × AreNormal rest

found_entry :
    (kind : Kind) (d : Destination) (rs : List Resend) (r : Resend)
    → AreNormal rs
    → find_resend kind d rs ≡ some r
    → IsNormal r.time × (resend_match kind d r ≡ true)
unfolding find_resend
found_entry kind d [] r n e = cc
found_entry kind d (x ∷ rest) r n e = elim (Bool-cases (resend_match kind d x)) [
  | inl m ↦ let same : x ≡ r = ground (arith, m) in rw (← same) (n.0, m)
  | inr f ↦ found_entry kind d rest r n.1 (ground (arith, f))
]

kind_of_match : (d : Destination) (r : Resend) → resend_match request d r ≡ true → r.kind ≡ request
unfolding resend_match
kind_of_match d r m = ground arith

-- An entry that has been marked is expired once the clock shows more than 65 seconds.
marked_expired :
    (now : Timeval) (r : Resend)
    → 66 ≤ now.sec
    → IsNormal now
    → IsNormal r.time
    → r.kind ≡ request
    → resend_expired now (expire_mark r) ≡ true
unfolding resend_expired expire_mark timeval_minus_msec
marked_expired now r late nn n k = rw k (ground arith)

unsatisfied_of_expired :
    (now : Timeval) (d : Destination) (seqno : ℕ) (id : List ℕ) (rs : List Resend) (r : Resend)
    → find_resend request d rs ≡ some r
    → resend_expired now r ≡ true
    → unsatisfied_request now d seqno id rs ≡ false
unfolding unsatisfied_request find_request
unsatisfied_of_expired now d seqno id rs r e x = rw (e, unsatisfied_request, x)

module _ (now : Timeval) (d : Destination) (seqno : ℕ) (id : List ℕ) (ifp : Option ℕ)
    (s s' : Resends) where
  satisfied :
      satisfy_request now d seqno id ifp s ≡ (s', true)
      → (r : Resend) × (find_request d s.to_resend ≡ some r)
        × (s'.to_resend ≡ change_found expire_mark request d s.to_resend)
  unfolding satisfy_request recompute_resend_time
  satisfied e = elim (Option-cases (find_request d s.to_resend)) [
    | inl er ↦ ground (arith, er)
    | inr (r, er) ↦ (r, er, ground (arith, er))
  ]

  -- After satisfy_request has marked a request, whenever that was, no seqno and no router makes it
  -- unsatisfied at any time from 66 seconds of the clock on, as long as the list is left as it is. The
  -- times in the list, and the later time, are normal.
  pub unsatisfied_request-satisfy_request :
      (later : Timeval) (seqno' : ℕ) (id' : List ℕ)
      → 66 ≤ later.sec
      → IsNormal later
      → AreNormal s.to_resend
      → satisfy_request now d seqno id ifp s ≡ (s', true)
      → unsatisfied_request later d seqno' id' s'.to_resend ≡ false
  unfolding find_request
  unsatisfied_request-satisfy_request later seqno' id' late nn n e =
      let (r, er, es) = satisfied e in
      let (nr, mr) = found_entry request d s.to_resend r n er in
      rw es (
        unsatisfied_of_expired later d seqno' id' (change_found expire_mark request d s.to_resend)
          (expire_mark r)
          (rw (find_resend-change_found expire_mark request d s.to_resend keeps, er) refl)
          (marked_expired later r late nn nr (kind_of_match d r mr)))
    where
      keeps : (x : Resend) → resend_match request d (expire_mark x) ≡ resend_match request d x
      keeps x = unfold resend_match expire_mark in refl
