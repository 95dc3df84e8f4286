-- ===== src/Prelude/Number.antt =====
-- JavaScript's `number`, as far as the code tells its values apart.
use Prim.Native.Nat.{ℕ, suc, ◌-◌, ◌^◌}
use mathlib.Core.Option.{Option, none, some}
use mathlib.Core.Bool.{Bool, true, false}
use nullark.Prelude.Tests.{leb, if◌then◌else◌}
use nullark.Prelude.Int.{ℤ, pos, negsuc, leb_ℤ}

-- A value that is no integer. A fraction is known by the integer below it, which is all that an order
-- against an integer depends on.
pub data NotInteger : Type 0 where
  just_above : ℤ → NotInteger
  minus_infinity infinity nan : NotInteger

pub data Number : Type 0 where
  int : ℤ → Number
  not_integer : NotInteger → Number

-- Number.MAX_SAFE_INTEGER
abbrev pub max_safe_integer : ℕ
max_safe_integer = 2 ^ 53 - 1

-- `Number.isSafeInteger`
unfoldable pub is_safe_integer : Number → Bool
is_safe_integer (int (pos n)) = leb n max_safe_integer
is_safe_integer (int (negsuc n)) = leb (suc n) max_safe_integer
is_safe_integer (not_integer _) = false

-- A number that passes `Number.isSafeInteger(n) && n >= 0`, by its value.
unfoldable pub nonneg_safe_integer : Number → Option ℕ
unfolding is_safe_integer
nonneg_safe_integer (int (pos n)) = if is_safe_integer (int (pos n)) then some n else none
nonneg_safe_integer (int (negsuc n)) = none
nonneg_safe_integer (not_integer _) = none

-- `a <= n` for an integer `a`.
unfoldable pub int_le_number : ℤ → Number → Bool
int_le_number a (int n) = leb_ℤ a n
int_le_number a (not_integer (just_above n)) = leb_ℤ a n
int_le_number a (not_integer minus_infinity) = false
int_le_number a (not_integer infinity) = true
int_le_number a (not_integer nan) = false

-- `n < 0`
unfoldable pub is_negative : Number → Bool
is_negative (int (pos n)) = false
is_negative (int (negsuc n)) = true
is_negative (not_integer (just_above (pos n))) = false
is_negative (not_integer (just_above (negsuc n))) = true
is_negative (not_integer minus_infinity) = true
is_negative (not_integer infinity) = false
is_negative (not_integer nan) = false
