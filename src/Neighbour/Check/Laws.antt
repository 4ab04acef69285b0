-- ===== src/Neighbour/Check/Laws.antt =====
-- neighbour.c: what check_neighbours leaves behind.
use mathlib.Core.List.{append_assoc, append-nil}
use mathlib.Core.Path.{subst}
use rabeld.Prelude.{
  ℕ, ◌*◌, ◌≤◌, ◌≡◌, ◌≢◌, refl, arith, Bool, true, false, ◌||◌, Option, some, none, ==_iff, List, [],
  ◌∷◌, ◌++◌, ◌∙◌, sym, Bool-cases, Option-cases, inl, inr, ◌⊎◌,
}
use rabeld.Util.Timeval.{Timeval, timeval_minus_msec}
use rabeld.Neighbour.{Neighbour, Event, flush_neighbour, unlink, update_neighbour_metric}
use rabeld.Neighbour.Hello.{
  update_neighbour, finish, count_missed, shift_missed, record_hello, Round,
}
use rabeld.Neighbour.Cost.{reset_txcost}
use rabeld.Neighbour.Check.{
  Walk, is_dead, shorten, write_back, check_neighbour, check_from, check_neighbours,
}

abbrev All : (Neighbour → Type 0) → List Neighbour → Type 0
All P [] = Unit
All P (n ∷ rest) = P n × All P rest

-- No neighbour of the list stands at this place in memory.
abbrev NotIn : ℕ → List Neighbour → Type 0
NotIn h xs = All (λ n. n.handle ≢ h) xs

-- The structures of the list stand at different places.
abbrev pub AreDistinct : List Neighbour → Type 0
AreDistinct [] = Unit
AreDistinct (n ∷ rest) = NotIn n.handle rest × AreDistinct rest

-- Heard of, and checked again before its next hello and its next IHU are due.
abbrev pub IsKept : Timeval → ℕ → Neighbour → Type 0
IsKept now msecs n =
    (n.reach ≢ 0)
    × (n.hello_time.sec ≤ now.sec)
    × (timeval_minus_msec now n.hello_time ≤ 300000)
    × ((n.hello_interval ≡ 0) ⊎ (msecs ≤ n.hello_interval * 10))
    × ((n.ihu_interval ≡ 0) ⊎ (msecs ≤ n.ihu_interval * 10))

abbrev pub AllKept : Timeval → ℕ → List Neighbour → Type 0
AllKept now msecs xs = All (IsKept now msecs) xs

All-append :
    (P : Neighbour → Type 0) (xs ys : List Neighbour) → All P xs → All P ys → All P (xs ++ ys)
All-append P [] ys h k = k
All-append P (x ∷ xs) ys h k = (h.0, All-append P xs ys h.1 k)

AllKept-sooner :
    (now : Timeval) (m m' : ℕ) (xs : List Neighbour) → m' ≤ m → AllKept now m xs → AllKept now m' xs
AllKept-sooner now m m' [] le h = tt
AllKept-sooner now m m' (x ∷ xs) le h =
    let (reach, now_le, recent, hello_due, ihu_due) = h.0 in
    (
      (reach, now_le, recent, omega (arith, hello_due), omega (arith, ihu_due)),
      AllKept-sooner now m m' xs le h.1,
    )

handle-finish :
    (r : Round) (n : Neighbour) (c : Bool) (sent : List Event)
    → finish r ≡ some (n, c, sent)
    → n.handle ≡ r.neigh.handle
unfolding finish shift_missed record_hello
handle-finish r n c sent e = ground arith

handle-count_missed :
    (now : Timeval) (neigh : Neighbour) (r : Round)
    → count_missed now neigh ≡ some r
    → r.neigh.handle ≡ neigh.handle
unfolding count_missed
handle-count_missed now neigh r e = ground arith

handle-update_neighbour :
    (now : Timeval) (neigh n : Neighbour) (c : Bool) (sent : List Event)
    → update_neighbour now none 0 neigh ≡ some (n, c, sent)
    → n.handle ≡ neigh.handle
unfolding update_neighbour
handle-update_neighbour now neigh n c sent e = elim (Option-cases (count_missed now neigh)) [
  | inl early ↦ ground (arith, early)
  | inr (r, er) ↦ handle-finish r n c sent (ground (arith, er)) ∙ handle-count_missed now neigh r er
]

write_back-at :
    (done rest : List Neighbour) (neigh n : Neighbour)
    → NotIn n.handle done
    → neigh.handle ≡ n.handle
    → write_back n (done ++ neigh ∷ rest) ≡ done ++ n ∷ rest
write_back-at [] rest neigh n h e = rw ((==_iff _ _).1 e)
write_back-at (x ∷ done) rest neigh n h e =
    ground (arith, write_back-at done rest neigh n h.1 e, h.0)

unlink-at :
    (done rest : List Neighbour) (neigh : Neighbour)
    → NotIn neigh.handle done
    → unlink neigh.handle (done ++ neigh ∷ rest) ≡ done ++ rest
unfolding unlink
unlink-at [] rest neigh h = rw ((==_iff neigh.handle neigh.handle).1 refl)
unlink-at (x ∷ done) rest neigh h = ground (arith, unlink-at done rest neigh h.1, h.0)

alive_facts :
    (now : Timeval) (n : Neighbour)
    → is_dead now n ≡ false
    → (n.reach ≢ 0) × (n.hello_time.sec ≤ now.sec) × (timeval_minus_msec now n.hello_time ≤ 300000)
alive_facts now n e = ((λ z. ground (arith, e, z)), ground (arith, e), ground (arith, e))

-- None of the first structures stands where one of the others does.
abbrev Apart : List Neighbour → List Neighbour → Type 0
Apart done rest = All (λ m. NotIn m.handle done) rest

Apart-snoc :
    (done rest : List Neighbour) (n : Neighbour)
    → Apart done rest
    → NotIn n.handle rest
    → Apart (done ++ n ∷ []) rest
Apart-snoc done [] n a h = tt
Apart-snoc done (m ∷ rest) n a h = (
  All-append (λ k. k.handle ≢ m.handle) done (n ∷ []) a.0 ((λ e. h.0 (sym e)), tt),
  Apart-snoc done rest n a.1 h.1,
)

-- The state before a neighbour is visited: the visited ones that were kept, then those to come.
record IsVisited (now : Timeval) (done rest : List Neighbour) (w : Walk) : Type 0 where
  shape : w.neighs ≡ done ++ rest
  kept : AllKept now w.msecs done
  apart : Apart done rest
  distinct : AreDistinct rest

reset_txcost-keeps :
    (now : Timeval) (n : Neighbour)
    → ((reset_txcost now n).0.handle ≡ n.handle)
      × (is_dead now (reset_txcost now n).0 ≡ is_dead now n)
      × ((reset_txcost now n).0.hello_interval ≡ n.hello_interval)
unfolding reset_txcost
reset_txcost-keeps now n = ground arith

shorten_le : (i m : ℕ) → (shorten i m ≤ m) × ((i ≡ 0) ⊎ (shorten i m ≤ i * 10))
shorten_le i m = grind arith

module _ (u : Option ℕ) (now : Timeval) (done rest : List Neighbour) (neigh n : Neighbour)
    (w : Walk) where
  -- The list after a visit, by the neighbour as it is after update_neighbour.
  module _ (v : IsVisited now done (neigh ∷ rest) w) (same : n.handle ≡ neigh.handle) where
    elsewhere : NotIn n.handle done
    elsewhere = rw same (v.apart.0)

    flushed : (flush_neighbour u n (write_back n w.neighs)).0 ≡ done ++ rest
    unfolding flush_neighbour
    flushed = rw (
      v.shape,
      write_back-at done rest neigh n elsewhere (sym same),
      unlink-at done rest n elsewhere,
    )

    -- A neighbour that is dead is taken out.
    dead_step :
        (events : List Event)
        → IsVisited now done rest
            (record w { neighs = (flush_neighbour u n (write_back n w.neighs)).0; events = events })
    dead_step events = record {
      shape = flushed;
      kept = v.kept;
      apart = v.apart.1;
      distinct = v.distinct.1;
    }

    -- One that is alive is kept, with its cost brought up to date.
    alive_step :
        (n' : Neighbour) (events : List Event)
        → n'.handle ≡ n.handle
        → is_dead now n' ≡ false
        → IsVisited now (done ++ n' ∷ []) rest (record {
          neighs = write_back n' w.neighs;
          events = events;
          msecs = shorten n'.ihu_interval (shorten n'.hello_interval w.msecs);
        })
    alive_step n' events same' alive =
        let (reach, now_le, recent) = alive_facts now n' alive in
        let (le1, due1) = shorten_le n'.hello_interval w.msecs in
        let (le2, due2) = shorten_le n'.ihu_interval (shorten n'.hello_interval w.msecs) in
        record {
          shape =
              rw
                (
                  v.shape,
                  write_back-at done rest neigh n' (rw same' elsewhere) (sym (same' ∙ same)),
                )
                (sym (append_assoc done (n' ∷ []) rest));
          kept =
              All-append (IsKept now (shorten n'.ihu_interval (shorten n'.hello_interval w.msecs)))
                done (n' ∷ []) (AllKept-sooner now w.msecs _ done (omega (arith, le1, le2)) v.kept)
                ((reach, now_le, recent, omega (arith, due1, le2), due2), tt);
          apart = Apart-snoc done rest n' v.apart.1 (rw (same' ∙ same) v.distinct.0);
          distinct = v.distinct.1;
        }

module _ (u : Option ℕ) (now : Timeval) (neigh n : Neighbour) (w : Walk) (changed : Bool)
    (sent : List Event) where
  module _ (er : update_neighbour now none 0 neigh ≡ some (n, changed, sent)) where
    check_neighbour-dead :
        is_dead now n ≡ true
        → check_neighbour u now neigh w
          ≡ some (record w {
            neighs = (flush_neighbour u n (write_back n w.neighs)).0;
            events = w.events ++ (sent ++ (flush_neighbour u n (write_back n w.neighs)).1);
          })
    unfolding check_neighbour
    check_neighbour-dead d = rw (er, check_neighbour, d)

    abbrev updated : Neighbour
    updated = (reset_txcost now n).0

    check_neighbour-alive :
        is_dead now n ≡ false
        → check_neighbour u now neigh w
          ≡ some (record {
            neighs = write_back updated w.neighs;
            events =
                w.events
                ++ (sent
                    ++ update_neighbour_metric updated.handle (changed || (reset_txcost now n).1)
                      ∷ []);
            msecs = shorten updated.ihu_interval (shorten updated.hello_interval w.msecs);
          })
    unfolding check_neighbour
    check_neighbour-alive d = rw (er, check_neighbour, d)

check_neighbour-undefined :
    (u : Option ℕ) (now : Timeval) (neigh : Neighbour) (w : Walk)
    → update_neighbour now none 0 neigh ≡ none
    → check_neighbour u now neigh w ≡ none
unfolding check_neighbour
check_neighbour-undefined u now neigh w e = rw (e, check_neighbour)

some_inj : {w w' : Walk} → some w ≡ some w' → w ≡ w'
some_inj e = cc

none≢some : {w : Walk} → none ≡ some w → ⊥
none≢some e = cc

check_step :
    (u : Option ℕ) (now : Timeval) (done rest : List Neighbour) (neigh : Neighbour) (w w' : Walk)
    → IsVisited now done (neigh ∷ rest) w
    → check_neighbour u now neigh w ≡ some w'
    → (done' : List Neighbour) × IsVisited now done' rest w'
check_step u now done rest neigh w w' v e =
    elim (Option-cases (update_neighbour now none 0 neigh)) [
      | inl undefined ↦
          absurd (none≢some (sym (check_neighbour-undefined u now neigh w undefined) ∙ e))
      | inr ((n, changed, sent), er) ↦
          let same : n.handle ≡ neigh.handle =
            handle-update_neighbour now neigh n changed sent er in
          elim (Bool-cases (is_dead now n)) [
            | inl d ↦ (
              done,
              subst (λ x. IsVisited now done rest x)
                  (some_inj (sym (check_neighbour-dead u now neigh n w changed sent er d) ∙ e))
                  (dead_step u now done rest neigh n w v same _),
            )
            | inr a ↦ (
              done ++ (reset_txcost now n).0 ∷ [],
              subst (λ x. IsVisited now (done ++ (reset_txcost now n).0 ∷ []) rest x)
                  (some_inj (sym (check_neighbour-alive u now neigh n w changed sent er a) ∙ e))
                  (alive_step u now done rest neigh n w v same (reset_txcost now n).0 _
                    (reset_txcost-keeps now n).0 ((reset_txcost-keeps now n).1 ∙ a)),
            )
          ]
    ]

check_from-cons :
    (u : Option ℕ) (now : Timeval) (neigh : Neighbour) (rest : List Neighbour) (w w' : Walk)
    → check_from u now (neigh ∷ rest) w ≡ some w'
    → (w₁ : Walk) × (check_neighbour u now neigh w ≡ some w₁) × (check_from u now rest w₁ ≡ some w')
unfolding check_from
check_from-cons u now neigh rest w w' e = elim (Option-cases (check_neighbour u now neigh w)) [
  | inl undefined ↦ absurd (none≢some (rw (undefined, check_from) at e))
  | inr (w₁, e₁) ↦ (w₁, e₁, rw (e₁, check_from) at e)
]

check_from-nil :
    (u : Option ℕ) (now : Timeval) (w w' : Walk) → check_from u now [] w ≡ some w' → w ≡ w'
unfolding check_from
check_from-nil u now w w' e = some_inj e

check_from-IsVisited :
    (u : Option ℕ) (now : Timeval) (rest done : List Neighbour) (w w' : Walk)
    → IsVisited now done rest w
    → check_from u now rest w ≡ some w'
    → (done' : List Neighbour) × IsVisited now done' [] w'
check_from-IsVisited u now [] done w w' v e =
    (done, subst (λ x. IsVisited now done [] x) (check_from-nil u now w w' e) v)
check_from-IsVisited u now (neigh ∷ rest) done w w' v e =
    let (w₁, e₁, e₂) = check_from-cons u now neigh rest w w' e in
    let (done', v') = check_step u now done rest neigh w w₁ v e₁ in
    check_from-IsVisited u now rest done' w₁ w' v' e₂

Apart-nil : (rest : List Neighbour) → Apart [] rest
Apart-nil [] = tt
Apart-nil (m ∷ rest) = (tt, Apart-nil rest)

-- After check_neighbours every neighbour left in the list has heard hellos in its history, and its
-- hello_time, which also moves on with hellos that were missed, lies 300 seconds back at most and not
-- in the future. The time to the next check is no longer than its hello interval and its IHU interval,
-- where these are set. The structures of the list that is checked stand at different places.
pub check_neighbours-AllKept :
    (u : Option ℕ) (now : Timeval) (neighs : List Neighbour) {w : Walk}
    → AreDistinct neighs
    → check_neighbours u now neighs ≡ some w
    → AllKept now w.msecs w.neighs
unfolding check_neighbours
check_neighbours-AllKept u now neighs {w} d e =
    let (done, v) =
      check_from-IsVisited u now neighs [] (record { neighs = neighs; events = []; msecs = 50000 })
        w (record { shape = refl; kept = tt; apart = Apart-nil neighs; distinct = d }) e in
    rw (v.shape, append-nil) (v.kept)
