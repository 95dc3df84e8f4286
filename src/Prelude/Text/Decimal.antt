-- ===== src/Prelude/Text/Decimal.antt =====
-- Decimal text: what `parseInt(String(n), 10)` returns.
use Prim.Native.Nat.{ℕ, zero, suc, ◌+◌, ◌/◌, ◌%◌, ◌≤◌, ◌<◌}
use mathlib.Core.Path.{◌≡◌, refl, ap, ◌∙◌}
use mathlib.Core.Logic.{inl, inr}
use mathlib.Core.Option.{some}
use mathlib.Core.List.{[], ◌∷◌}
use native.Mathlib.Omega.{arith}
use nullark.Prelude.Tests.{ltb, Bool-cases, ltb→lt}
use nullark.Prelude.Text.{
  Text, digit_unit, digit_value, digits_from, to_string, read_digits, read_digits-to_string,
  parse_int,
}

-- A text that begins with a decimal digit.
record BeginsWithDigit (s : Text) : Type 0 where
  first : ℕ
  rest : Text
  splits : s ≡ first ∷ rest
  least : b'0' ≤ first
  most : first ≤ b'9'

digits_from-begins :
    (fuel n : ℕ) (digits : Text) → n < fuel → BeginsWithDigit (digits_from fuel 10 n digits)
unfolding digits_from
digits_from-begins zero n digits h = absurd (omega arith)
digits_from-begins (suc fuel) n digits h = elim (Bool-cases (ltb n 10)) [
  | inl last ↦
      let small = ltb→lt n 10 last in
      rw last (record {
        first = b'0' + n;
        rest = digits;
        splits = refl;
        least = omega arith;
        most = omega arith;
      })
  | inr more ↦
      rw more (digits_from-begins fuel (n / 10) (digit_unit (n % 10) ∷ digits) (ground arith))
]

parse_int-digits :
    (first : ℕ) (rest : Text)
    → b'0' ≤ first
    → first ≤ b'9'
    → parse_int 10 (first ∷ rest) ≡ some (read_digits 10 0 (first ∷ rest))
unfolding parse_int digit_value
parse_int-digits first rest h k = ground arith

to_string-begins : (n : ℕ) → BeginsWithDigit (to_string 10 n)
unfolding to_string
to_string-begins n = digits_from-begins (suc n) n [] (omega arith)

-- A natural number survives printing and parsing.
pub parse_int-to_string : (n : ℕ) → parse_int 10 (to_string 10 n) ≡ some n
parse_int-to_string n =
    let d = to_string-begins n in
    let back = read_digits-to_string 10 n (omega arith) (omega arith) in
    rw d.splits (parse_int-digits d.first d.rest d.least d.most ∙ ap some (rw d.splits at back))

-- No number is printed as the empty text.
pub to_string-cons : (n : ℕ) → (c : ℕ) × (rest : Text) × (to_string 10 n ≡ c ∷ rest)
to_string-cons n = let d = to_string-begins n in (d.first, d.rest, d.splits)
