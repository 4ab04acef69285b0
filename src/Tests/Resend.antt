-- ===== src/Tests/Resend.antt =====
-- resend.c at fixed inputs.
use rabeld.Prelude.{ℕ, ◌≡◌, refl, arith, true, false, List, [], ◌∷◌, replicate, some}
use rabeld.Prelude.Bytes.{memcmp}
use rabeld.Util.Seqno.{seqno_compare}
use rabeld.Util.Prefix.{v6_equal}
use rabeld.Util.Timeval.{timeval_minus_msec, Timeval, zero_time}
use rabeld.Resend.{
  Resend, Resends, request, Destination, Filters, recorded, ignored, record_resend, find_resend,
  satisfy_request, resend_match, find_request, resend_expired, is_filtered, refresh, replace,
  is_newer, change_found, expire_mark, recompute_resend_time, unsatisfied_request,
  request_redundant, do_resend,
}
use rabeld.Resend.Find.{Holds, find_resend-record_resend, unsatisfied_request-satisfy_request}
use rabeld.Resend.Time.{AreCovered, do_resend-AreCovered}

abbrev at : ℕ → Timeval
at s = record { sec = s; usec = 0 }

abbrev accept : Filters
accept = record { input_filter = λ d i. 0; output_filter = λ d i. 0 }

abbrev lan : Destination
lan = record { prefix = replicate 16 7; plen = 64; src_prefix = replicate 16 0; src_plen = 0 }

abbrev router : List ℕ
router = replicate 8 5

abbrev waiting : Resend
waiting = record {
  kind = request;
  id = router;
  plen = 64;
  src_plen = 0;
  max = 3;
  prefix = replicate 16 7;
  src_prefix = replicate 16 0;
  delay = 1000;
  seqno = 40;
  time = at 100;
  ifp = some 2;
}

abbrev pending : Resends
pending = record { to_resend = waiting ∷ []; resend_time = at 101 }

abbrev empty : Resends
empty = record { to_resend = []; resend_time = zero_time }

-- A request for a newer seqno replaces the one that waits, a request for an older one does not.
newer_replaces :
    (record_resend accept true (at 100) request lan 41 (some router) (some 2) 2 500 pending).1
    ≡ recorded
unfolding record_resend is_filtered find_resend resend_match v6_equal memcmp seqno_compare refresh
    replace is_newer change_found
newer_replaces = refl

older_ignored :
    (record_resend accept true (at 100) request lan 39 (some router) (some 2) 2 500 pending).1
    ≡ ignored
unfolding record_resend is_filtered find_resend resend_match v6_equal memcmp seqno_compare refresh
    replace is_newer change_found
older_ignored = refl

-- A request that is made again within its time is redundant.
redundant : request_redundant (at 100) (some 2) (some 400) lan 40 router (waiting ∷ []) ≡ true
unfolding request_redundant find_request find_resend resend_match v6_equal memcmp seqno_compare
    resend_expired timeval_minus_msec
redundant = refl

-- While the clock shows less than 65 seconds, a satisfied request counts as unsatisfied still.
satisfied_early :
    unsatisfied_request
      (at 60)
      lan
      40
      router
      (satisfy_request (at 60) lan 40 router (some 2) (record {
        to_resend = record waiting { time = at 50 } ∷ [];
        resend_time = at 51;
      })).0.to_resend
    ≡ true
unfolding unsatisfied_request satisfy_request find_request find_resend resend_match v6_equal memcmp
    seqno_compare change_found expire_mark resend_expired timeval_minus_msec recompute_resend_time
satisfied_early = refl

find_resend-record_resend_example :
    (r : Resend) × (find_resend request lan
        (record_resend accept true
          (at 100)
          request
          lan
          41
          (some router)
          (some 2)
          2
          500
          pending).0.to_resend
      ≡ some r)
    × Holds (at 100) 41 (some router) r
unfolding record_resend is_filtered find_resend resend_match v6_equal memcmp seqno_compare refresh
    replace is_newer change_found
find_resend-record_resend_example =
    find_resend-record_resend accept true (at 100) request lan 41 (some router) (some 2) 2 500
      pending
      (record_resend accept true (at 100) request lan 41 (some router) (some 2) 2 500 pending).0
      refl

unsatisfied_request-satisfy_request_example :
    unsatisfied_request
      (at 200)
      lan
      50
      (replicate 8 9)
      (satisfy_request (at 102) lan 40 router (some 2) pending).0.to_resend
    ≡ false
unfolding satisfy_request find_request find_resend resend_match v6_equal memcmp seqno_compare
unsatisfied_request-satisfy_request_example =
    unsatisfied_request-satisfy_request (at 102) lan 40 router (some 2) pending
      (satisfy_request (at 102) lan 40 router (some 2) pending).0 (at 200) 50 (replicate 8 9)
      (ground arith) (ground arith) (ground arith, tt) refl

do_resend-AreCovered_example :
    AreCovered
      (at 102)
      (do_resend (at 102) pending).0.resend_time
      (do_resend (at 102) pending).0.to_resend
do_resend-AreCovered_example = do_resend-AreCovered (at 102) pending
