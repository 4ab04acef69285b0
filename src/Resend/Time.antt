-- ===== src/Resend/Time.antt =====
-- resend.c: resend_time is not later than the next time at which an entry is due.
use rabeld.Prelude.{
  ◌≤◌, ◌<◌, ◌≡◌, ◌⊎◌, inl, inr, refl, arith, Bool, true, false, List, [], ◌∷◌, Bool-cases,
  if◌then◌else◌,
}
use rabeld.Util.Timeval.{Timeval, zero_time, timeval_min}
use rabeld.Resend.{
  Resend, Resends, resend_expired, is_active, timeout, next_time, recompute_from,
  recompute_resend_time, unexpired, any_expired, expire_resend, resend_all, do_resend,
}

-- A time that is set, and is not after another.
abbrev NotAfter : Timeval → Timeval → Type 0
NotAfter t u = (0 < t.sec) × ((t.sec < u.sec) ⊎ ((t.sec ≡ u.sec) × (t.usec ≤ u.usec)))

-- An entry that is to be sent again is due at `t` or later. (A due time in the first second of the
-- clock counts as no time.)
abbrev pub IsCovered : Timeval → Timeval → Resend → Type 0
IsCovered now t r = (is_active now r ≡ false) ⊎ (((timeout r).sec ≡ 0) ⊎ NotAfter t (timeout r))

abbrev pub AreCovered : Timeval → Timeval → List Resend → Type 0
AreCovered now t [] = Unit
AreCovered now t (r ∷ rest) = IsCovered now t r × AreCovered now t rest

-- The minimum is not after either of its arguments that is set.
timeval_min_lem :
    (d s : Timeval)
    → ((d.sec ≡ 0) ⊎ NotAfter (timeval_min d s) d) × ((s.sec ≡ 0) ⊎ NotAfter (timeval_min d s) s)
unfolding timeval_min
timeval_min_lem d s = ground arith

NotAfter-trans : (t u v : Timeval) → NotAfter t u → NotAfter u v → NotAfter t v
NotAfter-trans t u v p q = ground arith

NotAfter-refl : (t : Timeval) → (t.sec ≡ 0) ⊎ NotAfter t t
NotAfter-refl t = ground arith

-- One step of the loop goes on to an earlier time, and covers its entry.
NotAfter-next_time :
    (now t : Timeval) (r : Resend)
    → ((t.sec ≡ 0) ⊎ NotAfter (next_time now t r) t) × IsCovered now (next_time now t r) r
NotAfter-next_time now t r = step (is_active now r)
  where
    step :
        (b : Bool)
        → ((t.sec ≡ 0) ⊎ NotAfter (if b then timeval_min t (timeout r) else t) t)
          × ((b ≡ false)
              ⊎ (((timeout r).sec ≡ 0)
                  ⊎ NotAfter (if b then timeval_min t (timeout r) else t) (timeout r)))
    step true = ((timeval_min_lem t (timeout r)).0, inr ((timeval_min_lem t (timeout r)).1))
    step false = (NotAfter-refl t, inl refl)

earlier :
    (t u v : Timeval)
    → (v.sec ≡ 0) ⊎ NotAfter u v
    → (u.sec ≡ 0) ⊎ NotAfter t u
    → (v.sec ≡ 0) ⊎ NotAfter t v
earlier t u v p q = ground arith

-- The loop goes on to earlier times only.
recompute_from-start :
    (now t : Timeval) (rs : List Resend) → (t.sec ≡ 0) ⊎ NotAfter (recompute_from now t rs) t
unfolding recompute_from
recompute_from-start now t [] = NotAfter-refl t
recompute_from-start now t (r ∷ rest) =
    earlier (recompute_from now (next_time now t r) rest) (next_time now t r) t
      ((NotAfter-next_time now t r).0) (recompute_from-start now (next_time now t r) rest)

IsCovered-earlier :
    (now t u : Timeval) (r : Resend)
    → IsCovered now u r
    → (u.sec ≡ 0) ⊎ NotAfter t u
    → IsCovered now t r
IsCovered-earlier now t u r (inl i) q = inl i
IsCovered-earlier now t u r (inr p) q = inr (earlier t u (timeout r) p q)

recompute_from-AreCovered :
    (now t : Timeval) (rs : List Resend) → AreCovered now (recompute_from now t rs) rs
unfolding recompute_from
recompute_from-AreCovered now t [] = tt
recompute_from-AreCovered now t (r ∷ rest) = (
  IsCovered-earlier now (recompute_from now (next_time now t r) rest) (next_time now t r) r
      ((NotAfter-next_time now t r).1) (recompute_from-start now (next_time now t r) rest),
  recompute_from-AreCovered now (next_time now t r) rest,
)

AreCovered-unexpired :
    (now t : Timeval) (rs : List Resend) → AreCovered now t rs → AreCovered now t (unexpired now rs)
unfolding unexpired
AreCovered-unexpired now t [] h = tt
AreCovered-unexpired now t (r ∷ rest) h = elim (Bool-cases (resend_expired now r)) [
  | inl x ↦ rw x (AreCovered-unexpired now t rest h.1)
  | inr f ↦ rw f (h.0, AreCovered-unexpired now t rest h.1)
]

-- No entry of the list is expired.
abbrev pub AreCurrent : Timeval → List Resend → Type 0
AreCurrent now [] = Unit
AreCurrent now (r ∷ rest) = (resend_expired now r ≡ false) × AreCurrent now rest

AreCurrent-unexpired : (now : Timeval) (rs : List Resend) → AreCurrent now (unexpired now rs)
unfolding unexpired
AreCurrent-unexpired now [] = tt
AreCurrent-unexpired now (r ∷ rest) = elim (Bool-cases (resend_expired now r)) [
  | inl x ↦ rw x (AreCurrent-unexpired now rest)
  | inr f ↦ rw f (f, AreCurrent-unexpired now rest)
]

-- If resend_time was not later than any entry is due, then after expire_resend it is so still, and
-- no expired entry is left.
pub expire_resend-AreCovered :
    (now : Timeval) (s : Resends)
    → AreCovered now s.resend_time s.to_resend
    → AreCovered now (expire_resend now s).resend_time (expire_resend now s).to_resend
      × AreCurrent now (expire_resend now s).to_resend
unfolding expire_resend recompute_resend_time
expire_resend-AreCovered now s h = elim (Bool-cases (any_expired now s.to_resend)) [
  | inl x ↦ rw x (
    recompute_from-AreCovered now zero_time (unexpired now s.to_resend),
    AreCurrent-unexpired now s.to_resend,
  )
  | inr f ↦
      rw f
        (AreCovered-unexpired now s.resend_time s.to_resend h, AreCurrent-unexpired now s.to_resend)
]

-- After do_resend, whatever was sent, resend_time is not later than any entry is due.
pub do_resend-AreCovered :
    (now : Timeval) (s : Resends)
    → let s' = (do_resend now s).0 in AreCovered now s'.resend_time s'.to_resend
unfolding do_resend recompute_resend_time
do_resend-AreCovered now s = recompute_from-AreCovered now zero_time (resend_all now s.to_resend).0
