-- ===== src/Neighbour/Check.antt =====
-- neighbour.c: check_neighbours, the periodic walk over the list. A neighbour that has not been heard
-- for long is flushed; the costs of the others are brought up to date.
pub mod Laws
use rabeld.Prelude.{
  ℕ, ◌+◌, ◌-◌, ◌*◌, ◌/◌, ◌%◌, ◌^◌, Bool, true, false, ◌&&◌, ◌||◌, Option, some, none, ltb, leb,
  ◌==◌, if◌then◌else◌, min, List, [], ◌∷◌, ◌++◌,
}
use rabeld.Util.Timeval.{Timeval, timeval_minus_msec}
use rabeld.Neighbour.{Neighbour, Event, flush_neighbour, update_neighbour_metric}
use rabeld.Neighbour.Hello.{update_neighbour}
use rabeld.Neighbour.Cost.{reset_txcost}

-- The list in the end, the calls made, and the milliseconds to the next check.
pub record Walk : Type 0 where
  pub neighs : List Neighbour
  pub events : List Event
  pub msecs : ℕ

abbrev pub is_dead : Timeval → Neighbour → Bool
is_dead now neigh =
    neigh.reach == 0
    || ltb now.sec neigh.hello_time.sec
    || ltb 300000 (timeval_minus_msec now neigh.hello_time)

-- `msecs = MIN(msecs, interval * 10)` if the interval is set
abbrev pub shorten : ℕ → ℕ → ℕ
shorten interval msecs = if ltb 0 interval then min msecs (interval * 10) else msecs

abbrev pub write_back : Neighbour → List Neighbour → List Neighbour
write_back neigh [] = []
write_back neigh (n ∷ rest) =
    if n.handle == neigh.handle then neigh ∷ rest else n ∷ write_back neigh rest

-- One neighbour of the walk. The structure is changed where it stands in the list. `none` is
-- undefined behaviour of update_neighbour.
unfoldable pub check_neighbour : Option ℕ → Timeval → Neighbour → Walk → Option Walk
check_neighbour unicast_neighbour now neigh w = elim (update_neighbour now none 0 neigh) [
  | none ↦ none
  | some (n, changed, sent) ↦
      if is_dead now n
      then (let (neighs, calls) = flush_neighbour unicast_neighbour n (write_back n w.neighs) in
          some (record w { neighs = neighs; events = w.events ++ (sent ++ calls) }))
      else (let (n', rc) = reset_txcost now n in
          some (record {
            neighs = write_back n' w.neighs;
            events = w.events ++ (sent ++ update_neighbour_metric n'.handle (changed || rc) ∷ []);
            msecs = shorten n'.ihu_interval (shorten n'.hello_interval w.msecs);
          }))
]

-- The neighbours that are still to be visited, and the state so far.
unfoldable pub check_from : Option ℕ → Timeval → List Neighbour → Walk → Option Walk
check_from unicast_neighbour now [] w = some w
check_from unicast_neighbour now (neigh ∷ rest) w =
    elim (check_neighbour unicast_neighbour now neigh w) [
      | none ↦ none
      | some w' ↦ check_from unicast_neighbour now rest w'
    ]

unfoldable pub check_neighbours : Option ℕ → Timeval → List Neighbour → Option Walk
check_neighbours unicast_neighbour now neighs =
    check_from unicast_neighbour now neighs (record { neighs = neighs; events = []; msecs = 50000 })
