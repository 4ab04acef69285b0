-- ===== src/Tests/Source.antt =====
-- source.c, and the feasibility condition of route.c, at fixed inputs.
use rabeld.Prelude.{ℕ, ◌≡◌, refl, arith, true, false, List, [], ◌∷◌, ◌++◌, replicate, some, none}
use rabeld.Prelude.Bytes.{memcmp}
use rabeld.Slots.{found, absent, find_slot}
use rabeld.Source.{
  Source, SourceTable, blank, source_compare, find_source_slot, find_source, Memory, update_source,
  expire_sources, retain_source, release_source, check_sources_released,
}
use rabeld.Source.Order.{IsSorted, order}
use rabeld.Source.Table.{
  IsResult, first_match, source_at, find_source_lem, find_source_slot-first_match,
}
use rabeld.Source.Expiry.{survivors, expire_sources_lem}
use rabeld.Route.Feasible.{update_feasible, update_feasible-update_source, update_source-narrows}

abbrev router : ℕ → List ℕ
router n = replicate 7 0 ++ n ∷ []

abbrev any : List ℕ
any = replicate 16 0

abbrev source_of : ℕ → ℕ → ℕ → Source
source_of n plen time = record blank {
  id = router n;
  plen = plen;
  seqno = 10;
  metric = 256;
  time = time;
}

abbrev table : SourceTable
table = record {
  sources = source_of 1 8 900 ∷ source_of 1 64 500 ∷ source_of 7 8 1000 ∷ [];
  max_source_slots = 8;
}

abbrev plenty : Memory
plenty = record { calloc = true; realloc = true }

search_runs :
    (find_source_slot (router 7) any 8 any 0 table ≡ found 2)
    × (find_source_slot (router 3) any 8 any 0 table ≡ absent 2)
unfolding find_source_slot find_slot source_compare memcmp
search_runs = (refl, refl)

-- A source that differs in `src_plen` only is taken for the one in the table.
src_plen_ignored : find_source_slot (router 7) any 8 any 64 table ≡ found 2
unfolding find_source_slot find_slot source_compare memcmp
src_plen_ignored = refl

expire_run : (expire_sources 1000 table).sources ≡ source_of 1 8 900 ∷ source_of 7 8 1000 ∷ []
unfolding expire_sources
expire_run = refl

retain_then_release :
    (retain_source (source_of 1 8 900) ≡ some (record (source_of 1 8 900) { route_count = 1 }))
    × (release_source (source_of 1 8 900) ≡ none)
unfolding retain_source release_source
retain_then_release = (refl, refl)

none_retained : check_sources_released (source_of 1 8 900 ∷ []) ≡ []
unfolding check_sources_released
none_retained = refl

table-IsSorted : IsSorted table.sources
table-IsSorted = unfold order source_compare memcmp in ((refl, (refl, tt)), ((refl, tt), (tt, tt)))

find_source_lem_example :
    let r = find_source plenty 1000 (router 3) any 8 any 0 true 5 table in
    IsSorted r.0.sources × IsResult (router 3) any 8 any 0 5 1000 table r
find_source_lem_example =
    find_source_lem (router 3) any 8 any 0 plenty 1000 5 table table-IsSorted true

find_source_slot-first_match_example :
    source_at (router 7) any 8 any 0 table (find_source_slot (router 7) any 8 any 0 table)
    ≡ first_match (router 7) any 8 any 0 table.sources
find_source_slot-first_match_example =
    find_source_slot-first_match (router 7) any 8 any 0 table table-IsSorted

expire_sources_lem_example : (expire_sources 1000 table).sources ≡ survivors 1000 table.sources
expire_sources_lem_example = expire_sources_lem 1000 table

update_feasible-update_source_example :
    update_feasible 1000 (some (update_source 1000 11 300 (source_of 1 8 900))) 11 400 ≡ false
update_feasible-update_source_example =
    update_feasible-update_source 1000 11 300 400 (source_of 1 8 900) (omega arith) (omega arith)
      (omega arith) (omega arith) (omega arith) (omega arith)

update_source-narrows_example : update_feasible 1000 (some (source_of 1 8 900)) 12 400 ≡ true
update_source-narrows_example =
    update_source-narrows 1000 11 300 12 400 (source_of 1 8 900) (omega arith) (omega arith)
      (omega arith) (omega arith) (omega arith) refl (unfold update_feasible update_source in refl)
