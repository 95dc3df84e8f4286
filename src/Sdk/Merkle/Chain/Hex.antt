-- ===== src/Sdk/Merkle/Chain/Hex.antt =====
-- `toBytes32` writes a field element as a text that `assertFieldBytes32` accepts and `BigInt` reads
-- back.
use native.Mathlib.Nat.{pow-suc}
use nullark.Prelude.{
  ℕ, zero, suc, ◌+◌, ◌-◌, ◌/◌, ◌%◌, ◌^◌, ◌≤◌, ◌<◌, ◌≡◌, refl, ap, ◌∙◌, true, inl, inr, [], ◌∷◌,
  ◌++◌, arith, ltb, Bool-cases, tests, ok, length, length-append,
}
use nullark.Prelude.Text.{
  Text, text, all_hex, to_string, digits_from, digit_unit, digit_value, read_digits,
  read_digits-to_string,
}
use nullark.Sdk.Merkle.{bn254_scalar_field, FieldLabel}
use nullark.Sdk.Merkle.Chain.{is_hex_bytes32, big_int, assert_field_bytes32, zeros_text, to_bytes32}

read_digits-zeros : (n : ℕ) (s : Text) → read_digits 16 0 (zeros_text n ++ s) ≡ read_digits 16 0 s
unfolding read_digits zeros_text
read_digits-zeros zero s = refl
read_digits-zeros (suc n) s = read_digits-zeros n s

pub big_int-to_bytes32 : (v : ℕ) → big_int (to_bytes32 v) ≡ v
unfolding big_int to_bytes32
big_int-to_bytes32 v =
    read_digits-zeros (64 - length (to_string 16 v)) (to_string 16 v)
    ∙ read_digits-to_string 16 v (omega arith) (omega arith)

digit_unit-hex : (d : ℕ) → d < 16 → ltb (digit_value (digit_unit d)) 16 ≡ true
unfolding digit_unit digit_value
digit_unit-hex d h = ground arith

digits_from-hex :
    (fuel n : ℕ) (digits : Text)
    → all_hex digits ≡ true
    → all_hex (digits_from fuel 16 n digits) ≡ true
unfolding digits_from all_hex
digits_from-hex zero n digits h = h
digits_from-hex (suc fuel) n digits h = elim (Bool-cases (ltb n 16)) [
  | inl last ↦ rw (last, digit_unit-hex n (omega (tests, last))) h
  | inr more ↦ rw more (
      digits_from-hex fuel (n / 16) (digit_unit (n % 16) ∷ digits)
        (rw (digit_unit-hex (n % 16) (omega arith)) h))
]

digits_from-short :
    (fuel n k : ℕ) (digits : Text)
    → n < 16 ^ suc k
    → length (digits_from fuel 16 n digits) ≤ suc k + length digits
unfolding digits_from
digits_from-short zero n k digits h = omega arith
digits_from-short (suc fuel) n zero digits h =
    let last : ltb n 16 ≡ true = ground arith in rw last (omega arith)
digits_from-short (suc fuel) n (suc k) digits h = elim (Bool-cases (ltb n 16)) [
  | inl last ↦ rw last (omega arith)
  | inr more ↦
      let more_room = pow-suc 16 (suc k) in
      let small : n / 16 < 16 ^ suc k = omega (arith, more_room, h) in
      let ih = digits_from-short fuel (n / 16) k (digit_unit (n % 16) ∷ digits) small in
      rw more (omega (arith, ih))
]

zeros-hex : (n : ℕ) (s : Text) → all_hex s ≡ true → all_hex (zeros_text n ++ s) ≡ true
unfolding zeros_text all_hex digit_value
zeros-hex zero s h = h
zeros-hex (suc n) s h = zeros-hex n s h

length-zeros_text : (n : ℕ) → length (zeros_text n) ≡ n
unfolding zeros_text
length-zeros_text zero = refl
length-zeros_text (suc n) = ap suc (length-zeros_text n)

to_string-short : (v : ℕ) → v < 16 ^ 64 → length (to_string 16 v) ≤ 64
unfolding to_string
to_string-short v h = omega (arith, digits_from-short (suc v) v 63 [] h)

to_string-hex : (v : ℕ) → all_hex (to_string 16 v) ≡ true
unfolding to_string all_hex
to_string-hex v = digits_from-hex (suc v) v [] refl

padded-hex :
    (digits : Text)
    → length digits ≤ 64
    → all_hex digits ≡ true
    → is_hex_bytes32 (text "0x" ++ (zeros_text (64 - length digits) ++ digits)) ≡ true
unfolding is_hex_bytes32
padded-hex digits short hex =
    let size = length-append (zeros_text (64 - length digits)) digits in
    let pad = length-zeros_text (64 - length digits) in
    let all : length (zeros_text (64 - length digits) ++ digits) ≡ 64 =
      omega (arith, size, pad, short) in
    rw (all, zeros-hex (64 - length digits) digits hex) refl

is_hex_bytes32-to_bytes32 : (v : ℕ) → v < 16 ^ 64 → is_hex_bytes32 (to_bytes32 v) ≡ true
unfolding to_bytes32
is_hex_bytes32-to_bytes32 v h = padded-hex (to_string 16 v) (to_string-short v h) (to_string-hex v)

pub assert_field_bytes32-to_bytes32 :
    (v : ℕ) (label : FieldLabel)
    → v < bn254_scalar_field
    → assert_field_bytes32 (to_bytes32 v) label ≡ ok (to_bytes32 v)
unfolding assert_field_bytes32
assert_field_bytes32-to_bytes32 v label h =
    let fits : v < 16 ^ 64 = omega (arith, h) in
    rw (is_hex_bytes32-to_bytes32 v fits, big_int-to_bytes32 v) (ground (arith, h))
