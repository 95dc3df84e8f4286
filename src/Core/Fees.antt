-- ===== src/Core/Fees.antt =====
-- packages/core/src/fees.ts and the constants of config.ts that it reads: the withdrawal fee in basis
-- points, the fee state, and the check of a sweep. A `bigint` is ℤ, a `number` is `Number`.
pub mod Amounts
pub mod State
mod Examples
use Prim.Native.String.{String}
use nullark.Prelude.{
  ℕ, Bool, true, false, not, ◌||◌, Option, none, some, ltb, if◌then◌else◌, Result, ok, err, ◌>>=◌,
  ◌>>◌, throw_if,
}
use nullark.Prelude.Int.{ℤ, pos, ◌-ℤ◌, ◌*ℤ◌, quot_ℤ, ltb_ℤ, leb_ℤ}
use nullark.Prelude.Number.{Number, int, nonneg_safe_integer}

abbrev pub withdrawal_fee_bps : ℤ
withdrawal_fee_bps = pos 33

abbrev pub bps_denominator : ℕ
bps_denominator = 10_000

abbrev pub min_withdrawal_amount : ℤ
min_withdrawal_amount = pos 1

pub record WithdrawalFeeResult : Type 0 where
  pub gross : ℤ
  pub fee : ℤ
  pub net : ℤ

pub record WithdrawalFeeBounds : Type 0 where
  pub max_fee_bps : Option Number
  pub max_fee_wei : Option ℤ
  pub min_net_amount_wei : Option ℤ

pub record SweepCheck : Type 0 where
  pub accrued_protocol_fees : ℤ
  pub fee_swept_accounting : ℤ
  pub requested_sweep : ℤ

pub data WithdrawalFeeSource : Type 0 where
  runtime_static_v1_1 : WithdrawalFeeSource
  on_chain_fee_bps : WithdrawalFeeSource

-- The fields that may be `undefined` or `null` are optional: the code treats both alike.
pub record WithdrawalFeeStateInput : Type 0 where
  pub active_fee_bps : Number
  pub max_fee_bps : Number
  pub pending_fee_bps : Option Number
  pub pending_fee_activation_time : Option String
  pub source : WithdrawalFeeSource

-- `pendingFeeActive` is the constant `false`.
pub record WithdrawalFeeState : Type 0 where
  pub active_fee_bps : ℕ
  pub max_fee_bps : ℕ
  pub pending_fee_bps : Option ℕ
  pub pending_fee_activation_time : Option String
  pub pending_fee_active : Bool
  pub source : WithdrawalFeeSource

-- The label that a message of `normalizeFeeBps` begins with.
pub data FeeLabel : Type 0 where
  withdrawal_label max_label active_label max_withdrawal_label pending_label : FeeLabel

pub data FeeError : Type 0 where
  withdrawal_below_minimum : FeeError
  not_nonnegative_safe_integer : FeeLabel → FeeError
  fee_bps_above_max : FeeError
  fee_exceeds_user_maximum : FeeError
  net_below_user_minimum : FeeError
  active_above_max : FeeError
  pending_above_max : FeeError
  activation_time_not_iso : FeeError

-- `number | bigint`
pub data FeeBps : Type 0 where
  number : Number → FeeBps
  bigint : ℤ → FeeBps

-- `Number(value)` rounds a `bigint` beyond the safe integers to one that is not safe either, so the
-- test that follows rejects it just as it rejects the unrounded integer.
abbrev pub to_number : FeeBps → Number
to_number (number n) = n
to_number (bigint z) = int z

abbrev pub or_throw {ℓ} : {A : Type ℓ} → Option A → FeeError → Result FeeError A
or_throw none e = err e
or_throw (some a) e = ok a

unfoldable pub normalize_fee_bps : FeeBps → FeeLabel → Result FeeError ℕ
unfolding nonneg_safe_integer
normalize_fee_bps value label =
    or_throw (nonneg_safe_integer (to_number value)) (not_nonnegative_safe_integer label)

-- `value === undefined ? undefined : normalizeFeeBps(value, label)`
unfoldable pub normalize_optional : Option Number → FeeLabel → Result FeeError (Option ℕ)
unfolding normalize_fee_bps
normalize_optional none label = ok none
normalize_optional (some value) label = do n ← normalize_fee_bps (number value) label; ok (some n)

-- `pending !== undefined && pending > max`
abbrev pub pending_above : Option ℕ → ℕ → Bool
pending_above none max = false
pending_above (some pending) max = ltb max pending

-- `limit !== undefined && value > limit`
abbrev pub above : ℕ → Option ℕ → Bool
above value none = false
above value (some limit) = ltb limit value

abbrev pub above_ℤ : ℤ → Option ℤ → Bool
above_ℤ value none = false
above_ℤ value (some limit) = ltb_ℤ limit value

abbrev pub below_ℤ : ℤ → Option ℤ → Bool
below_ℤ value none = false
below_ℤ value (some limit) = ltb_ℤ value limit

-- `(gross * BigInt(bps)) / BPS_DENOMINATOR`
unfoldable pub fee_of : ℤ → ℕ → ℤ
unfolding ◌*ℤ◌ quot_ℤ
fee_of gross bps = quot_ℤ (gross *ℤ pos bps) bps_denominator

-- `calculateWithdrawalFee` behind the normalisation of its basis points.
unfoldable pub charge : ℤ → ℕ → WithdrawalFeeBounds → Result FeeError WithdrawalFeeResult
unfolding fee_of
charge gross bps bounds =
    let fee = fee_of gross bps in
    let net = gross -ℤ fee in
    do
      throw_if (above_ℤ fee bounds.max_fee_wei) fee_exceeds_user_maximum
      throw_if (below_ℤ net bounds.min_net_amount_wei) net_below_user_minimum
      ok (record { gross = gross; fee = fee; net = net })

unfoldable pub calculate_withdrawal_fee :
    ℤ → FeeBps → WithdrawalFeeBounds → Result FeeError WithdrawalFeeResult
unfolding normalize_fee_bps normalize_optional charge
calculate_withdrawal_fee gross_withdrawal_amount fee_bps bounds = do
  throw_if (ltb_ℤ gross_withdrawal_amount min_withdrawal_amount) withdrawal_below_minimum
  normalized_fee_bps ← normalize_fee_bps fee_bps withdrawal_label
  max_fee_bps ← normalize_optional bounds.max_fee_bps max_label
  throw_if (above normalized_fee_bps max_fee_bps) fee_bps_above_max
  charge gross_withdrawal_amount normalized_fee_bps bounds

-- `is_timestamp t` stands for `!Number.isNaN(Date.parse(t))`.
module _ (is_timestamp : String → Bool) where
  abbrev pub bad_time : Option String → Bool
  bad_time none = false
  bad_time (some t) = not (is_timestamp t)

  unfoldable pub resolve_withdrawal_fee_state :
      WithdrawalFeeStateInput → Result FeeError WithdrawalFeeState
  unfolding normalize_fee_bps normalize_optional
  resolve_withdrawal_fee_state input = do
    active ← normalize_fee_bps (number input.active_fee_bps) active_label
    max ← normalize_fee_bps (number input.max_fee_bps) max_withdrawal_label
    throw_if (ltb max active) active_above_max
    pending ← normalize_optional input.pending_fee_bps pending_label
    throw_if (pending_above pending max) pending_above_max
    throw_if (bad_time input.pending_fee_activation_time) activation_time_not_iso
    ok (record {
      active_fee_bps = active;
      max_fee_bps = max;
      pending_fee_bps = pending;
      pending_fee_activation_time = input.pending_fee_activation_time;
      pending_fee_active = false;
      source = input.source;
    })

unfoldable pub can_sweep_fees : SweepCheck → Bool
can_sweep_fees check =
    if ltb_ℤ check.accrued_protocol_fees (pos 0)
      || (ltb_ℤ check.fee_swept_accounting (pos 0) || ltb_ℤ check.requested_sweep (pos 0))
    then false
    else if ltb_ℤ check.accrued_protocol_fees check.fee_swept_accounting
    then false
    else leb_ℤ check.requested_sweep (check.accrued_protocol_fees -ℤ check.fee_swept_accounting)
