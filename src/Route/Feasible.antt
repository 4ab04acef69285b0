-- ===== src/Route/Feasible.antt =====
-- route.c: the feasibility condition, which keeps Babel free of loops. A source carries the best
-- (seqno, metric) that this node has announced, and an update is accepted only if it is better.
use rabeld.Prelude.{
  ℕ, ◌+◌, ◌-◌, ◌%◌, ◌^◌, ◌≤◌, ◌<◌, ◌≡◌, ◌≢◌, arith, Bool, true, false, ltb, leb, ◌==◌, ◌&&◌, ◌||◌,
  if◌then◌else◌, Option, some, none,
}
use rabeld.Prelude.Bytes.{is_gt}
use rabeld.Util.Seqno.{seqno_compare}
use rabeld.Source.{Source, infinity, is_stale, update_source}

-- The source is `none` for NULL.
unfoldable pub update_feasible : ℕ → Option Source → ℕ → ℕ → Bool
unfolding seqno_compare
update_feasible now none seqno refmetric = true
update_feasible now (some src) seqno refmetric =
    if is_stale now src
    then true
    else (if leb infinity refmetric
        then true
        else is_gt (seqno_compare seqno src.seqno)
          || (src.seqno == seqno && ltb refmetric src.metric))

-- Once a finite metric has been announced, an update with the same seqno and a finite metric that is
-- not smaller is not feasible, unless the source's old seqno was opposite on the circle.
pub update_feasible-update_source :
    (now seqno metric refmetric : ℕ) (src : Source)
    → seqno < 2 ^ 16
    → src.seqno < 2 ^ 16
    → src.seqno ≢ seqno + 2 ^ 15
    → seqno ≢ src.seqno + 2 ^ 15
    → metric ≤ refmetric
    → refmetric < infinity
    → update_feasible now (some (update_source now seqno metric src)) seqno refmetric ≡ false
unfolding update_feasible update_source
update_feasible-update_source now seqno metric refmetric src hs hs' n1 n2 le fin = ground arith

-- Announcing never lets more in: what is feasible after the announcement of (seqno, metric) was so
-- before, for a source that is not stale, where all the seqnos lie in a window of 2 ^ 14 numbers
-- above that of the source.
pub update_source-narrows :
    (now seqno metric s m : ℕ) (src : Source)
    → src.seqno < 2 ^ 16
    → seqno < 2 ^ 16
    → s < 2 ^ 16
    → (seqno + 2 ^ 16 - src.seqno) % 2 ^ 16 < 2 ^ 14
    → (s + 2 ^ 16 - src.seqno) % 2 ^ 16 < 2 ^ 14
    → is_stale now src ≡ false
    → update_feasible now (some (update_source now seqno metric src)) s m ≡ true
    → update_feasible now (some src) s m ≡ true
unfolding update_feasible update_source
update_source-narrows now seqno metric s m src h1 h2 h3 w1 w2 fresh feas = ground arith
