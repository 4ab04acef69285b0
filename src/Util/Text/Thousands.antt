-- ===== src/Util/Text/Thousands.antt =====
-- util.c: format_thousands, and that parse_thousands reads what it prints.
use mathlib.Core.List.{append_assoc}
use rabeld.Prelude.{
  ℕ, zero, suc, ◌+◌, ◌*◌, ◌/◌, ◌%◌, ◌^◌, ◌<◌, ◌≡◌, arith, ltb, if◌then◌else◌, List, [], ◌∷◌, ◌++◌,
  some, none, Bool-cases, inl, inr, ap, ◌∙◌,
}
use rabeld.Util.Text.{
  skip_spaces, take_digits, three_digits, fraction, with_fraction, is_end, parse_thousands,
  nonnegative,
}

-- What printf writes for %d and a number that is not negative; n + 1 rounds are enough.
unfoldable pub decimal : ℕ → ℕ → List ℕ
decimal zero n = []
decimal (suc rounds) n =
    let front : List ℕ = decimal rounds (n / 10) in
    if ltb n 10 then (b'0' + n) ∷ [] else front ++ (b'0' + n % 10) ∷ []

-- "%d.%.3d"; the text fits into its 15 bytes.
unfoldable pub format_thousands : ℕ → List ℕ
unfolding decimal
format_thousands value =
    decimal (suc (value / 1000)) (value / 1000)
    ++ b'.'
      ∷ (b'0' + value % 1000 / 100)
      ∷ (b'0' + value % 1000 / 10 % 10)
      ∷ (b'0' + value % 1000 % 10)
      ∷ []

abbrev digits_of : ℕ → ℕ → ℕ
digits_of zero n = 0
digits_of (suc rounds) n =
    let front : ℕ = digits_of rounds (n / 10) in if ltb n 10 then 1 else front + 1

take_digits-decimal :
    (rounds n : ℕ) (rest : List ℕ)
    → n < rounds
    → n < 2 ^ 32
    → take_digits 0 0 (decimal rounds n ++ rest) ≡ take_digits n (digits_of rounds n) rest
unfolding take_digits decimal
take_digits-decimal zero n rest h b = absurd (omega arith)
take_digits-decimal (suc rounds) n rest h b = elim (Bool-cases (ltb n 10)) [
  | inl e ↦ rw e (ground arith)
  | inr e ↦
      rw (e, append_assoc (decimal rounds (n / 10)) ((b'0' + n % 10) ∷ []) rest)
        (take_digits-decimal rounds (n / 10) ((b'0' + n % 10) ∷ rest) (ground arith) (omega arith)
          ∙ ground arith)
]

fraction-three :
    (f : ℕ)
    → f < 1000
    → fraction (b'.' ∷ (b'0' + f / 100) ∷ (b'0' + f / 10 % 10) ∷ (b'0' + f % 10) ∷ []) ≡ (f, [])
unfolding fraction take_digits three_digits
fraction-three f h = ground arith

decimal_start :
    (rounds n : ℕ) (rest : List ℕ)
    → n < rounds
    → skip_spaces (decimal rounds n ++ rest) ≡ decimal rounds n ++ rest
unfolding skip_spaces decimal
decimal_start zero n rest h = absurd (omega arith)
decimal_start (suc rounds) n rest h = elim (Bool-cases (ltb n 10)) [
  | inl e ↦ rw e (ground arith)
  | inr e ↦
      rw (e, append_assoc (decimal rounds (n / 10)) ((b'0' + n % 10) ∷ []) rest)
        (decimal_start rounds (n / 10) ((b'0' + n % 10) ∷ rest) (ground arith))
]

with_fraction-three :
    (n count f : ℕ)
    → f < 1000
    → n * 1000 + f < 2 ^ 31
    → with_fraction (record {
      value = n;
      count = count;
      rest = b'.' ∷ (b'0' + f / 100) ∷ (b'0' + f / 10 % 10) ∷ (b'0' + f % 10) ∷ [];
    })
      ≡ some (n * 1000 + f)
unfolding with_fraction skip_spaces
with_fraction-three n count f h b =
    ap (λ p. if is_end (skip_spaces p.1) then nonnegative ((n * 1000 + p.0) % 2 ^ 32) else none)
      (fraction-three f h)
    ∙ ground arith

-- A time of less than 2 ^ 31 ms, or another number in thousandths, is read back as it was printed.
pub parse_thousands-format_thousands :
    (value : ℕ) → value < 2 ^ 31 → parse_thousands (format_thousands value) ≡ some value
unfolding parse_thousands format_thousands take_digits
parse_thousands-format_thousands value h =
    let n : ℕ = value / 1000 in
    let f : ℕ = value % 1000 in
    let rest : List ℕ = b'.' ∷ (b'0' + f / 100) ∷ (b'0' + f / 10 % 10) ∷ (b'0' + f % 10) ∷ [] in
    ap (λ s. with_fraction (take_digits 0 0 s)) (decimal_start (suc n) n rest (omega arith))
    ∙ ap with_fraction (take_digits-decimal (suc n) n rest (omega arith) (omega arith))
    ∙ with_fraction-three n (digits_of (suc n) n) f (omega arith) (omega arith)
    ∙ ap some (omega arith)
