-- ===== src/Prelude/Text.antt =====
-- JavaScript strings as lists of UTF-16 code units, and the functions of the standard library that the
-- code applies to them. The texts here are hexadecimal, addresses and keys, which are ASCII; case and
-- white space are those of ASCII.
pub mod Decimal
use Prim.Native.Nat.{ℕ, zero, suc, ◌+◌, ◌-◌, ◌*◌, ◌/◌, ◌%◌, ◌≤◌, ◌<◌}
use Prim.Native.Char.{code}
use Prim.Native.String
use Prim.Native.String.{String}
use mathlib.Core.Path.{◌≡◌, refl, ap, ap₂, ◌∙◌}
use mathlib.Core.Logic.{◌⊎◌, inl, inr}
use mathlib.Core.Bool.{Bool, true, false, ◌&&◌, ◌||◌}
use mathlib.Core.Option.{Option, none, some}
use mathlib.Core.List.{List, [], ◌∷◌, ◌++◌, map, reverse}
use native.Mathlib.Omega.{arith}
use native.Mathlib.Nat.{div-lt_self, mod-lt, div-add-mod'}
use nullark.Prelude.Tests.{ltb, leb, ◌==◌, if◌then◌else◌, Bool-cases, ==_iff}
use nullark.Prelude.Int.{ℤ, pos, sub_ℕ}

abbrev pub Text : Type 0
Text = List ℕ

-- A literal.
abbrev pub text : String → Text
text String.[] = []
text (String.◌∷◌ c s) = code c ∷ text s

unfoldable pub text_eq : Text → Text → Bool
text_eq [] [] = true
text_eq (x ∷ xs) (y ∷ ys) = (x == y) && text_eq xs ys
text_eq _ _ = false

pub text_eq_refl : (s : Text) → text_eq s s ≡ true
unfolding text_eq
text_eq_refl [] = refl
text_eq_refl (x ∷ xs) = ground (arith, text_eq_refl xs)

pub text_eq→eq : (s t : Text) → text_eq s t ≡ true → s ≡ t
unfolding text_eq
text_eq→eq [] [] h = refl
text_eq→eq (x ∷ xs) (y ∷ ys) h =
    let same : x ≡ y = ground arith in ap₂ (◌∷◌) same (text_eq→eq xs ys (ground arith))
text_eq→eq [] (y ∷ ys) h = cc
text_eq→eq (x ∷ xs) [] h = cc

-- Behind a common prefix two texts are as different as what follows it.
pub text_eq-prefix : (p s t : Text) → text_eq (p ++ s) (p ++ t) ≡ text_eq s t
unfolding text_eq
text_eq-prefix [] s t = refl
text_eq-prefix (x ∷ p) s t = ground (arith, text_eq-prefix p s t)

-- `toLowerCase`
abbrev pub lower_unit : ℕ → ℕ
lower_unit c = if leb b'A' c && leb c b'Z' then c + 32 else c

unfoldable pub to_lower_case : Text → Text
to_lower_case s = map lower_unit s

pub to_lower_case-idempotent : (s : Text) → to_lower_case (to_lower_case s) ≡ to_lower_case s
unfolding to_lower_case
to_lower_case-idempotent [] = refl
to_lower_case-idempotent (c ∷ s) = ap₂ (◌∷◌) (ground arith) (to_lower_case-idempotent s)

-- `trim`
abbrev pub is_space : ℕ → Bool
is_space c = c == 32 || (leb 9 c && leb c 13)

unfoldable pub trim_start : Text → Text
trim_start [] = []
trim_start (c ∷ s) = let rest = trim_start s in if is_space c then rest else c ∷ s

unfoldable pub trim : Text → Text
unfolding trim_start
trim s = reverse (trim_start (reverse (trim_start s)))

-- The value of a digit in a base of at most 36, and 36 for any other unit.
unfoldable pub digit_value : ℕ → ℕ
digit_value c =
    if leb b'0' c && leb c b'9'
    then c - b'0'
    else if leb b'a' c && leb c b'z'
    then c - b'a' + 10
    else if leb b'A' c && leb c b'Z'
    then c - b'A' + 10
    else 36

-- `[0-9a-fA-F]*`
unfoldable pub all_hex : Text → Bool
unfolding digit_value
all_hex [] = true
all_hex (c ∷ s) = ltb (digit_value c) 16 && all_hex s

unfoldable pub digit_unit : ℕ → ℕ
digit_unit d = if ltb d 10 then b'0' + d else b'a' + (d - 10)

-- `n.toString(base)`, with fuel; a number is more than its number of digits less one.
unfoldable pub digits_from : ℕ → ℕ → ℕ → Text → Text
unfolding digit_unit
digits_from zero base n digits = digits
digits_from (suc fuel) base n digits =
    let more = digits_from fuel base (n / base) (digit_unit (n % base) ∷ digits) in
    if ltb n base then digit_unit n ∷ digits else more

unfoldable pub to_string : ℕ → ℕ → Text
unfolding digits_from
to_string base n = digits_from (suc n) base n []

-- The digits at the front of a text, read onto a number.
unfoldable pub read_digits : ℕ → ℕ → Text → ℕ
unfolding digit_value
read_digits base n [] = n
read_digits base n (c ∷ s) =
    let rest = read_digits base (n * base + digit_value c) s in
    if ltb (digit_value c) base then rest else n

digit_value-unit : (d : ℕ) → d < 36 → digit_value (digit_unit d) ≡ d
unfolding digit_value digit_unit
digit_value-unit d h = ground arith

read_digits-digit :
    (base n d : ℕ) (rest : Text)
    → d < base
    → base ≤ 36
    → read_digits base n (digit_unit d ∷ rest) ≡ read_digits base (n * base + d) rest
unfolding read_digits
read_digits-digit base n d rest h k =
    let digit : ltb d base ≡ true = ground arith in rw (digit_value-unit d (omega arith), digit)

read_digits-from :
    (fuel base n : ℕ) (rest : Text)
    → 1 < base
    → base ≤ 36
    → n < fuel
    → read_digits base 0 (digits_from fuel base n rest) ≡ read_digits base n rest
unfolding digits_from
read_digits-from zero base n rest h k f = absurd (omega arith)
read_digits-from (suc fuel) base n rest h k f = elim (Bool-cases (ltb n base)) [
  | inl last ↦
      let same : 0 * base + n ≡ n = omega arith in
      rw (last, read_digits-digit base 0 n rest (ground arith) k, same)
  | inr more ↦
      let smaller : n / base < n = div-lt_self (ground arith) h in
      rw more (
        read_digits-from fuel base (n / base) (digit_unit (n % base) ∷ rest) h k (omega arith)
        ∙ read_digits-digit base (n / base) (n % base) rest (mod-lt n (omega arith)) k
        ∙ ap (λ m. read_digits base m rest) (div-add-mod' n base))
]

-- Reading back what was printed.
pub read_digits-to_string :
    (base n : ℕ) → 1 < base → base ≤ 36 → read_digits base 0 (to_string base n) ≡ n
unfolding to_string read_digits
read_digits-to_string base n h k = read_digits-from (suc n) base n [] h k (omega arith)

-- The digits that a text begins with; `none` where it begins with no digit.
abbrev pub parse_unsigned : ℕ → Text → Option ℕ
parse_unsigned base [] = none
parse_unsigned base (c ∷ s) =
    if ltb (digit_value c) base then some (read_digits base 0 (c ∷ s)) else none

-- `Number.parseInt(s, base)` where its result is not negative; `none` for `NaN` and for a negative
-- result.
unfoldable pub parse_int : ℕ → Text → Option ℕ
unfolding trim_start read_digits
parse_int base s = elim (trim_start s) [
  | [] ↦ none
  | c ∷ rest ↦
      if c == b'-'
      then none
      else if c == b'+'
      then parse_unsigned base rest
      else parse_unsigned base (c ∷ rest)
]

pub text_eq_comm : (s t : Text) → text_eq s t ≡ text_eq t s
unfolding text_eq
text_eq_comm [] [] = refl
text_eq_comm (x ∷ xs) (y ∷ ys) = ground (arith, text_eq_comm xs ys)
text_eq_comm [] (y ∷ ys) = refl
text_eq_comm (x ∷ xs) [] = refl

-- `s.startsWith(p)`
unfoldable pub starts_with : Text → Text → Bool
starts_with [] s = true
starts_with (x ∷ p) [] = false
starts_with (x ∷ p) (c ∷ s) = x == c && starts_with p s
