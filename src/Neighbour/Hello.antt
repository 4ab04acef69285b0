-- ===== src/Neighbour/Hello.antt =====
-- neighbour.c: update_neighbour, which records the Hello messages that arrive and those that do not.
pub mod Laws
use rabeld.Prelude.{
  ℕ, zero, suc, ◌+◌, ◌-◌, ◌*◌, ◌/◌, ◌%◌, ◌^◌, Bool, true, false, List, [], ◌∷◌, ◌++◌, ◌&&◌, ◌||◌,
  not, Option, some, none, ltb, leb, ◌==◌, if◌then◌else◌, bit_and,
}
use rabeld.Prelude.Int.{ℤ, pos, negsuc}
use rabeld.Util.Seqno.{seqno_minus, seqno_plus}
use rabeld.Util.Timeval.{Timeval, timeval_minus_msec, timeval_add_msec}
use rabeld.Neighbour.{
  Neighbour, Event, send_hello, send_self_update, send_unicast_request, send_ihu,
}

-- `(unsigned short)` of an int
abbrev pub to_ushort : ℤ → ℕ
to_ushort (pos n) = n % 2 ^ 16
to_ushort (negsuc n) = (2 ^ 16 - suc n % 2 ^ 16) % 2 ^ 16

-- The local variables of update_neighbour beside the neighbour; `hello` is `none` when negative.
pub record Round : Type 0 where
  pub neigh : Neighbour
  pub hello : Option ℕ
  pub missed_hellos : ℕ
  pub rc : Bool

-- No hello has arrived: how many have been missed. `none` is an early return. The division is of
-- signed numbers, but a negative or zero quotient leads to the early return too.
unfoldable pub count_missed : Timeval → Neighbour → Option Round
count_missed now neigh =
    let missed : ℕ =
      (timeval_minus_msec now neigh.hello_time - neigh.hello_interval * 7)
      / (neigh.hello_interval * 10) in
    if neigh.hello_interval == 0
    then none
    else (if missed == 0
        then none
        else some (record {
          neigh = record neigh {
            hello_time = timeval_add_msec neigh.hello_time (missed * neigh.hello_interval * 10);
          };
          hello = none;
          missed_hellos = missed;
          rc = false;
        }))

-- A hello has arrived out of order, `late` numbers (at most 8) before the expected one.
unfoldable pub late_hello : ℕ → ℕ → ℕ → Neighbour → Round
late_hello hello hello_interval late neigh =
    if ltb neigh.hello_interval hello_interval
    then record {
      neigh = record neigh { reach = neigh.reach * 2 ^ late % 2 ^ 16 };
      hello = some hello;
      missed_hellos = 0;
      rc = true;
    }
    else record {
      neigh = record neigh { hello_seqno = pos hello };
      hello = none;
      missed_hellos = 0;
      rc = true;
    }

-- The value of `seqno_minus(hello, hello_seqno)`, which is one more than `missed_hellos`, decides.
unfoldable pub by_distance : ℕ → ℕ → Neighbour → ℤ → Round
by_distance hello hello_interval neigh (pos zero) = late_hello hello hello_interval 1 neigh
by_distance hello hello_interval neigh (pos (suc missed)) = record {
  neigh = neigh;
  hello = some hello;
  missed_hellos = missed;
  rc = false;
}
by_distance hello hello_interval neigh (negsuc n) =
    if ltb 6 n
    then record {
      neigh = record neigh { reach = 0 };
      hello = some hello;
      missed_hellos = 0;
      rc = true;
    }
    else late_hello hello hello_interval (n + 2) neigh

abbrev pub is_known : ℤ → Bool
is_known (pos n) = true
is_known (negsuc n) = false

unfoldable pub hello_arrived : Timeval → ℕ → ℕ → Neighbour → Round
unfolding by_distance late_hello
hello_arrived now hello hello_interval neigh =
    let r : Round =
      if is_known neigh.hello_seqno && ltb 0 neigh.reach
      then by_distance hello hello_interval neigh (seqno_minus hello (to_ushort neigh.hello_seqno))
      else record { neigh = neigh; hello = some hello; missed_hellos = 0; rc = false } in
    record r {
      neigh = record r.neigh { hello_time = now; hello_interval = hello_interval % 2 ^ 16 };
    }

-- `reach >>= missed_hellos`. A shift of an int by 32 bits or more is undefined: `none`.
unfoldable pub shift_missed : Round → Option Round
shift_missed r =
    if r.missed_hellos == 0
    then some r
    else (if leb 32 r.missed_hellos
        then none
        else some (record r {
          neigh = record r.neigh {
            reach = r.neigh.reach / 2 ^ r.missed_hellos;
            hello_seqno = pos (seqno_plus (to_ushort r.neigh.hello_seqno) (pos r.missed_hellos));
          };
          missed_hellos = 0;
          rc = true;
        }))

-- `reach >>= 1; reach |= 0x8000`: the top bit is clear after the shift.
unfoldable pub record_hello : Round → Round
record_hello r = elim (r.hello) [
  | none ↦ r
  | some hello ↦
      let reach' : ℕ = r.neigh.reach / 2 + 0x8000 in
      record r {
        neigh = record r.neigh { hello_seqno = pos hello; reach = reach' };
        rc = r.rc || not (bit_and reach' 0xFC00 == 0xFC00);
      }
]

-- The messages that are sent at the end, by the value of `reach`.
unfoldable pub feedback : Neighbour → List Event
feedback neigh =
    let a : ℕ = bit_and neigh.reach 0xC000 in
    let b : ℕ = bit_and neigh.reach 0x3000 in
    (if bit_and neigh.reach 0xBF00 == 0x8000
      then send_hello neigh.ifp ∷ []
      else (if (a == 0xC000 && b == 0) || (a == 0 && b == 0x3000)
          then send_self_update neigh.ifp ∷ []
          else []))
    ++ (if bit_and neigh.reach 0xFC00 == 0xC000
        then send_unicast_request neigh.handle ∷ send_ihu neigh.handle ∷ []
        else [])

-- The part after the two branches. `none` is undefined behaviour.
unfoldable pub finish : Round → Option (Neighbour × Bool × List Event)
finish r = elim (shift_missed r) [
  | none ↦ none
  | some r' ↦ let r'' : Round = record_hello r' in some (r''.neigh, r''.rc, feedback r''.neigh)
]

-- The neighbour, whether anything changed, and the messages sent.
unfoldable pub update_neighbour :
    Timeval → Option ℕ → ℕ → Neighbour → Option (Neighbour × Bool × List Event)
update_neighbour now none hello_interval neigh = elim (count_missed now neigh) [
  | none ↦ some (neigh, false, [])
  | some r ↦ finish r
]
update_neighbour now (some hello) hello_interval neigh =
    finish (hello_arrived now hello hello_interval neigh)
