-- ===== src/Neighbour/Hello/Laws.antt =====
-- neighbour.c: what update_neighbour does to the history of hellos. Bit 15 of `reach` stands for the
-- last hello that was due, bit 14 for the one before it, and so on.
use rabeld.Prelude.{
  ℕ, suc, ◌+◌, ◌/◌, ◌%◌, ◌^◌, ◌≤◌, ◌<◌, ◌≡◌, refl, arith, Bool, true, false, List, some, none, ltb,
  leb, ◌==◌, ==_iff, inl, inr, Bool-cases, ◌∙◌, ap,
}
use rabeld.Prelude.Int.{ℤ, pos, negsuc}
use rabeld.Util.Seqno.{seqno_minus, seqno_plus}
use rabeld.Util.Timeval.{Timeval}
use rabeld.Neighbour.{Neighbour, Event}
use rabeld.Neighbour.Hello.{
  Round, late_hello, by_distance, hello_arrived, shift_missed, record_hello, finish, feedback,
  update_neighbour, to_ushort,
}

-- A neighbour from which a hello has been received, and what it was.
pub record HasHistory (neigh : Neighbour) (last : ℕ) : Type 0 where
  pub known : neigh.hello_seqno ≡ pos last
  pub in_range : last < 2 ^ 16
  pub some_bit : 0 < neigh.reach

to_ushort-last : (last : ℕ) → last < 2 ^ 16 → to_ushort (pos last) ≡ last
to_ushort-last last h = omega arith

-- What the function returns from a round after the shift.
abbrev ended : Round → Neighbour × Bool × List Event
ended s = ((record_hello s).neigh, (record_hello s).rc, feedback (record_hello s).neigh)

abbrev shifted : Round → Round
shifted r = record r {
  neigh = record r.neigh {
    reach = r.neigh.reach / 2 ^ r.missed_hellos;
    hello_seqno = pos (seqno_plus (to_ushort r.neigh.hello_seqno) (pos r.missed_hellos));
  };
  missed_hellos = 0;
  rc = true;
}

-- What the end of the function makes of a round whose shift is defined.
finish-some : (r s : Round) → shift_missed r ≡ some s → finish r ≡ some (ended s)
unfolding finish
finish-some r s e = rw (e, finish)

finish-none : (r : Round) → shift_missed r ≡ none → finish r ≡ none
unfolding finish
finish-none r e = rw (e, finish)

-- A shift by fewer than 32 is defined, and moves the history only.
shift_few :
    (r : Round)
    → r.missed_hellos < 32
    → (s : Round) × (shift_missed r ≡ some s)
      × (s.hello ≡ r.hello)
      × (s.neigh.reach ≡ r.neigh.reach / 2 ^ r.missed_hellos)
      × (s.neigh.hello_time ≡ r.neigh.hello_time)
unfolding shift_missed
shift_few r few = elim (Bool-cases (r.missed_hellos == 0)) [
  | inl z ↦ (r, rw z, refl, rw ((==_iff _ _).0 z) (omega arith), refl)
  | inr nz ↦ (shifted r, rw (nz, in_reach r.missed_hellos few), refl, refl, refl)
]
  where
    in_reach : (m : ℕ) → m < 32 → leb 32 m ≡ false
    in_reach m h = ground arith

shift_many : (r : Round) → 32 ≤ r.missed_hellos → shift_missed r ≡ none
unfolding shift_missed
shift_many r many = ground arith

-- A hello that counts is put in front of the history.
record_some :
    (s : Round) (hello : ℕ)
    → s.hello ≡ some hello
    → ((record_hello s).neigh.reach ≡ s.neigh.reach / 2 + 2 ^ 15)
      × ((record_hello s).neigh.hello_seqno ≡ pos hello)
      × ((record_hello s).neigh.hello_time ≡ s.neigh.hello_time)
unfolding record_hello
record_some s hello e = rw (e, record_hello) (refl, refl, refl)

module _ (now : Timeval) (hello interval last : ℕ) (neigh : Neighbour)
    (h : HasHistory neigh last) where
  arrived :
      (d : ℤ)
      → seqno_minus hello last ≡ d
      → hello_arrived now hello interval neigh ≡ record (by_distance hello interval neigh d) {
        neigh = record (by_distance hello interval neigh d).neigh {
          hello_time = now;
          hello_interval = interval % 2 ^ 16;
        };
      }
  unfolding hello_arrived
  arrived d e = rw (h.known, to_ushort-last last h.in_range, e) (ground arith)

  abbrev Outcome : ℕ → Neighbour × Bool × List Event → Type 0
  Outcome reach r = (r.0.reach ≡ reach) × (r.0.hello_seqno ≡ pos hello) × (r.0.hello_time ≡ now)

  -- The round of a hello that counts, whose shift is defined.
  counted :
      (d : ℤ) (b : Round)
      → seqno_minus hello last ≡ d
      → by_distance hello interval neigh d ≡ b
      → b.missed_hellos < 32
      → b.hello ≡ some hello
      → (r : Neighbour × Bool × List Event) × (update_neighbour now (some hello) interval neigh
          ≡ some r)
        × Outcome (b.neigh.reach / 2 ^ b.missed_hellos / 2 + 2 ^ 15) r
  unfolding update_neighbour
  counted d b e eb few eh =
      let round : Round = record b {
        neigh = record b.neigh { hello_time = now; hello_interval = interval % 2 ^ 16 };
      } in
      let (s, es, hs, rs, ts) = shift_few round few in
      let (rr, rh, rt) = record_some s hello (hs ∙ eh) in
      (
        ended s,
        rw (arrived d e, eb) (finish-some round s es),
        (rr ∙ ap (λ (t : ℕ). t / 2 + 2 ^ 15) rs, rh, rt ∙ ts),
      )

  -- A hello that comes when `missed` others were due before it, at most 31, shifts the history by
  -- their number, with zeros for them, and puts a one for itself in front; it becomes the last one.
  pub update_neighbour-in_order :
      (missed : ℕ)
      → missed < 32
      → seqno_minus hello last ≡ pos (suc missed)
      → (r : Neighbour × Bool × List Event) × (update_neighbour now (some hello) interval neigh
          ≡ some r)
        × (r.0.reach ≡ neigh.reach / 2 ^ missed / 2 + 2 ^ 15)
        × (r.0.hello_seqno ≡ pos hello)
        × (r.0.hello_time ≡ now)
  unfolding by_distance
  update_neighbour-in_order missed few e =
      let (r, er, o) = counted (pos (suc missed)) _ e refl few refl in (r, er, o.0, o.1, o.2)

  -- A hello whose seqno is 8 or more below the last one starts the history anew, with itself as its
  -- only hello.
  pub update_neighbour-reboot :
      (n : ℕ)
      → 7 ≤ n
      → seqno_minus hello last ≡ negsuc n
      → (r : Neighbour × Bool × List Event) × (update_neighbour now (some hello) interval neigh
          ≡ some r)
        × (r.0.reach ≡ 2 ^ 15)
        × (r.0.hello_seqno ≡ pos hello)
        × (r.0.hello_time ≡ now)
  unfolding by_distance
  update_neighbour-reboot n many e =
      let (r, er, o) = counted (negsuc n) anew e (rw (far n many)) (omega arith) refl in
      (r, er, o.0 ∙ omega arith, o.1, o.2)
    where
      anew : Round
      anew = record {
        neigh = record neigh { reach = 0 };
        hello = some hello;
        missed_hellos = 0;
        rc = true;
      }

      far : (n : ℕ) → 7 ≤ n → ltb 6 n ≡ true
      far n h = ground arith

  -- With 32 or more hellos missed the result is undefined: the code shifts an int by its width or
  -- more.
  pub update_neighbour-undefined :
      (missed : ℕ)
      → 32 ≤ missed
      → seqno_minus hello last ≡ pos (suc missed)
      → update_neighbour now (some hello) interval neigh ≡ none
  unfolding update_neighbour by_distance
  update_neighbour-undefined missed many e =
      rw (arrived (pos (suc missed)) e) (finish-none _ (shift_many _ many))

  -- A hello whose seqno is 1 to 7 below the last one, and whose interval is no longer than before,
  -- leaves the history as it is and becomes the last one.
  pub update_neighbour-late :
      (n : ℕ)
      → n < 7
      → interval ≤ neigh.hello_interval
      → seqno_minus hello last ≡ negsuc n
      → (r : Neighbour × Bool × List Event) × (update_neighbour now (some hello) interval neigh
          ≡ some r)
        × (r.0.reach ≡ neigh.reach)
        × (r.0.hello_seqno ≡ pos hello)
        × (r.0.hello_time ≡ now)
  unfolding update_neighbour by_distance late_hello finish shift_missed record_hello
  update_neighbour-late n few le e = (
    ended after,
    rw (arrived (negsuc n) e, near n few, shorter interval neigh.hello_interval le),
    refl,
    refl,
    refl,
  )
    where
      after : Round
      after = record {
        neigh = record neigh {
          hello_seqno = pos hello;
          hello_time = now;
          hello_interval = interval % 2 ^ 16;
        };
        hello = none;
        missed_hellos = 0;
        rc = true;
      }

      near : (n : ℕ) → n < 7 → ltb 6 n ≡ false
      near n h = ground arith

      shorter : (a b : ℕ) → a ≤ b → ltb b a ≡ false
      shorter a b h = ground arith
