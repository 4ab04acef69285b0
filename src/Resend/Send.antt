-- ===== src/Resend/Send.antt =====
-- resend.c: how often do_resend sends an entry.
use rabeld.Prelude.{ℕ, suc, ◌+◌, ◌<◌, ◌≡◌, refl, arith, true, List, [], ◌∷◌, Bool-cases, inl, inr}
use rabeld.Util.Timeval.{Timeval}
use rabeld.Resend.{Resend, Resends, Sent, is_due, resend_all, do_resend, recompute_resend_time}

-- The sendings that the entries of a list have left.
abbrev pub tries_left : List Resend → ℕ
tries_left [] = 0
tries_left (r ∷ rest) = r.max + tries_left rest

abbrev pub count : List Sent → ℕ
count [] = 0
count (m ∷ rest) = suc (count rest)

due_has_tries : (now : Timeval) (r : Resend) → is_due now r ≡ true → 0 < r.max
due_has_tries now r e = ground arith

resend_all-tries_left :
    (now : Timeval) (rs : List Resend)
    → count (resend_all now rs).1 + tries_left (resend_all now rs).0 ≡ tries_left rs
unfolding resend_all
resend_all-tries_left now [] = refl
resend_all-tries_left now (r ∷ rest) = elim (Bool-cases (is_due now r)) [
  | inl d ↦ rw d (ground (arith, due_has_tries now r d, resend_all-tries_left now rest))
  | inr n ↦ rw n (ground (arith, resend_all-tries_left now rest))
]

-- Every message that do_resend sends uses up one of the sendings that the entries have left, so an
-- entry is not sent more often than its `max` says.
pub do_resend-tries_left :
    (now : Timeval) (s : Resends)
    → count (do_resend now s).1 + tries_left (do_resend now s).0.to_resend ≡ tries_left s.to_resend
unfolding do_resend recompute_resend_time
do_resend-tries_left now s = resend_all-tries_left now s.to_resend
