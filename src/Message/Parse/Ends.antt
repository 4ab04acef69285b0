-- ===== src/Message/Parse/Ends.antt =====
-- message.c: the loop of parse_packet comes to an end.
use rabeld.Prelude.{
  ℕ, zero, suc, ◌+◌, ◌-◌, ◌≤◌, ◌≡◌, arith, false, true, ltb, ◌==◌, List, [], ◌++◌, get_or, drop,
  Bool-cases, inl, inr,
}
use rabeld.Message.Parse.{Link, Heard, Call, parse_message, parse_loop}

-- A run of the loop that ends: a derivation is the finite sequence of its rounds, from the memory `m`,
-- what is left of the body and what has been heard, to what the function has heard and called in the
-- end.
pub data Ends (link : Link) : List ℕ → ℕ → Heard → Heard × List Call → Type 0 where
  at_end : (m : List ℕ) (h : Heard) → Ends link m 0 h (h, [])
  cut_off :
      (m : List ℕ) (left : ℕ) (h : Heard)
      → left == 0 ≡ false
      → get_or m 0 0 == 0 ≡ false
      → ltb left (get_or m 1 0) ≡ true
      → Ends link m left h (h, [])
  pad1 :
      (m : List ℕ) (left : ℕ) (h : Heard) (r : Heard × List Call)
      → left == 0 ≡ false
      → get_or m 0 0 == 0 ≡ true
      → Ends link (drop 1 m) (left - 1) h r
      → Ends link m left h r
  message :
      (m : List ℕ) (left : ℕ) (h : Heard) (r : Heard × List Call)
      → left == 0 ≡ false
      → get_or m 0 0 == 0 ≡ false
      → ltb left (get_or m 1 0) ≡ false
      → Ends link
          (drop (get_or m 1 0 + 2) m)
          (left - (get_or m 1 0 + 2))
          (parse_message link m (get_or m 1 0) h).0
          r
      → Ends link m left h (r.0, (parse_message link m (get_or m 1 0) h).1 ++ r.1)

-- The loop comes to an end on every body, whatever the bytes are, within as many rounds as the body
-- has bytes: there is a finite sequence of rounds, each of which passes over one byte of padding or
-- over a whole message, up to the end of the body or to a message that is cut off, and parse_loop
-- returns what this sequence has heard and called.
pub parse_loop-Ends :
    (rounds : ℕ) (link : Link) (m : List ℕ) (left : ℕ) (h : Heard)
    → left ≤ rounds
    → Ends link m left h (parse_loop rounds link m left h)
unfolding parse_loop
parse_loop-Ends zero link m zero h le = at_end m h
parse_loop-Ends zero link m (suc left) h le = absurd (omega arith)
parse_loop-Ends (suc rounds) link m zero h le = at_end m h
parse_loop-Ends (suc rounds) link m (suc left) h le = elim (Bool-cases (get_or m 0 0 == 0)) [
  | inl pad ↦
      rw (some_left, pad)
        (pad1 m (suc left) h _ some_left pad
          (parse_loop-Ends rounds link (drop 1 m) (suc left - 1) h (omega arith)))
  | inr kind ↦ elim (Bool-cases (ltb (suc left) (get_or m 1 0))) [
    | inl cut ↦ rw (some_left, kind, cut) (cut_off m (suc left) h some_left kind cut)
    | inr whole ↦
        rw (some_left, kind, whole)
          (message m (suc left) h _ some_left kind whole (
            parse_loop-Ends rounds link (drop (get_or m 1 0 + 2) m) (suc left - (get_or m 1 0 + 2))
              (parse_message link m (get_or m 1 0) h).0 (omega arith)))
  ]
]
  where
    some_left : suc left == 0 ≡ false
    some_left = ground arith
