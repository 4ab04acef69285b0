-- ===== src/Message/Parse/Loop.antt =====
-- message.c: the loop of parse_packet reads one message after the other.
use rabeld.Prelude.{
  ℕ, zero, suc, ◌+◌, ◌-◌, ◌*◌, ◌/◌, ◌%◌, ◌^◌, ◌≤◌, ◌<◌, ◌≡◌, some, refl, arith, true, false, ltb,
  ◌==◌, List, [], ◌∷◌, ◌++◌, get_or, drop, length, length-append, ap, sym, ◌∙◌,
}
use mathlib.Core.List.{append_assoc, append-nil}
use rabeld.Message.Parse.{Link, Heard, Call, nothing_heard, parse_message, parse_loop, parse_packet}
use rabeld.Util.Prefix.{linklocal}
use rabeld.Message.{htons}

-- As many rounds as there are bytes left are enough.
pub parse_loop-rounds :
    (f g : ℕ) (link : Link) (m : List ℕ) (left : ℕ) (h : Heard)
    → left ≤ f
    → left ≤ g
    → parse_loop f link m left h ≡ parse_loop g link m left h
unfolding parse_loop
parse_loop-rounds zero zero link m left h p q = refl
parse_loop-rounds zero (suc g) link m left h p q = rw (stop left (omega arith)) refl
  where
    stop : (n : ℕ) → n ≤ 0 → n == 0 ≡ true
    stop n le = ground arith
parse_loop-rounds (suc f) zero link m left h p q = rw (stop left (omega arith)) refl
  where
    stop : (n : ℕ) → n ≤ 0 → n == 0 ≡ true
    stop n le = ground arith
parse_loop-rounds (suc f) (suc g) link m left h p q =
    rw
      (
        parse_loop-rounds f g link (drop 1 m) (left - 1) h (omega arith) (omega arith),
        parse_loop-rounds f g link (drop (get_or m 1 0 + 2) m) (left - (get_or m 1 0 + 2))
            (parse_message link m (get_or m 1 0) h).0 (omega arith) (omega arith),
      )
      refl

-- What the loop reads from a buffer that ends with its last message.
abbrev pub read : Link → Heard → List ℕ → Heard × List Call
read link h m = parse_loop (length m) link m (length m) h

-- The messages in `m`, whatever follows them, make the calls and leave h'.
abbrev pub Reads : Link → Heard → List ℕ → Heard → List Call → Type 0
Reads link h m h' calls =
    (rest : List ℕ)
    → read link h (m ++ rest) ≡ ((read link h' rest).0, calls ++ (read link h' rest).1)

pub Reads-nothing : (link : Link) (h : Heard) → Reads link h [] h []
Reads-nothing link h rest = refl

pub Reads-append :
    (link : Link) (h h₁ h₂ : Heard) (m n : List ℕ) (c d : List Call)
    → Reads link h m h₁ c
    → Reads link h₁ n h₂ d
    → Reads link h (m ++ n) h₂ (c ++ d)
Reads-append link h h₁ h₂ m n c d p q rest =
    rw (append_assoc m n rest, p (n ++ rest), q rest, append_assoc c d (read link h₂ rest).1) refl

drop-append : (xs ys : List ℕ) → drop (length xs) (xs ++ ys) ≡ ys
drop-append [] ys = refl
drop-append (x ∷ xs) ys = drop-append xs ys

abbrev pub followed_by : List Call → Heard × List Call → Heard × List Call
followed_by calls r = (r.0, calls ++ r.1)

-- One round, on a message that is not padding and not cut off.
parse_loop-message :
    (rounds : ℕ) (link : Link) (m : List ℕ) (left : ℕ) (h h' : Heard) (calls : List Call)
    → left == 0 ≡ false
    → get_or m 0 0 == 0 ≡ false
    → ltb left (get_or m 1 0) ≡ false
    → parse_message link m (get_or m 1 0) h ≡ (h', calls)
    → parse_loop (suc rounds) link m left h
      ≡ followed_by calls
          (parse_loop rounds link (drop (get_or m 1 0 + 2) m) (left - (get_or m 1 0 + 2)) h')
unfolding parse_loop
parse_loop-message rounds link m left h h' calls some_left kind whole e =
    rw (some_left, kind, whole, e) refl

-- One message, with the length that its second byte tells.
pub Reads-message :
    (link : Link) (h h' : Heard) (type : ℕ) (body : List ℕ) (calls : List Call)
    → type == 0 ≡ false
    → ((rest : List ℕ)
        → parse_message link (type ∷ length body ∷ body ++ rest) (length body) h ≡ (h', calls))
    → Reads link h (type ∷ length body ∷ body) h' calls
Reads-message link h h' type body calls kind does rest =
    parse_loop-message (suc n) link all (suc (suc n)) h h' calls (positive (suc n)) kind fits
      (does rest)
    ∙ ap (followed_by calls) (
        ap (λ t. parse_loop (suc n) link t (suc (suc n) - (length body + 2)) h') past
        ∙ ap (λ t. parse_loop (suc n) link rest t h') left
        ∙ parse_loop-rounds (suc n) (length rest) link rest (length rest) h' short (omega arith))
  where
    n : ℕ
    n = length (body ++ rest)

    all : List ℕ
    all = type ∷ length body ∷ body ++ rest

    positive : (k : ℕ) → suc k == 0 ≡ false
    positive k = ground arith

    size : n ≡ length body + length rest
    size = length-append body rest

    fits : ltb (suc (suc n)) (length body) ≡ false
    fits = ground (arith, size)

    past : drop (length body + 2) all ≡ rest
    past = ap (λ t. drop t all) two ∙ drop-append body rest
      where
        two : length body + 2 ≡ suc (suc (length body))
        two = omega arith

    left : suc (suc n) - (length body + 2) ≡ length rest
    left = omega (arith, size)

    short : length rest ≤ suc n
    short = omega (arith, size)

-- A buffer that ends with the messages.
pub Reads-end :
    (link : Link) (h h' : Heard) (m : List ℕ) (c : List Call)
    → Reads link h m h' c
    → read link h m ≡ (h', c)
unfolding parse_loop
Reads-end link h h' m c p =
    ap (read link h) (sym (append-nil m)) ∙ p [] ∙ ap (λ t. (h', t)) (append-nil c)

-- A packet with the header that flushbuf sends, from a link-local address, is read as its body: the
-- messages up to the announced length, from a parser that has heard nothing yet. The body has fewer
-- than 2 ^ 16 bytes.
pub parse_packet-body :
    (link : Link) (from b : List ℕ)
    → linklocal from ≡ true
    → length b < 2 ^ 16
    → parse_packet link from (42 ∷ 2 ∷ htons (length b) ++ b) (length b + 4)
      ≡ some (read link nothing_heard b)
unfolding parse_packet
parse_packet-body link from b local short = rw (local, ntohs_said, whole (length b)) refl
  where
    ntohs_said : length b / 256 % 256 * 256 + length b % 256 ≡ length b
    ntohs_said = omega arith

    whole : (n : ℕ) → ltb (n + 4) (n + 4) ≡ false
    whole n = ground arith
