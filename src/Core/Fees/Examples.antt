-- ===== src/Core/Fees/Examples.antt =====
-- Runs of the fees.
use Prim.Native.String.{String}
use nullark.Prelude.{◌≡◌, refl, ℕ, Bool, true, false, Option, none, some, ok, err, arith}
use nullark.Prelude.Int.{pos, ◌≤ℤ◌, ◌-ℤ◌}
use nullark.Prelude.Number.{int}
use nullark.Core.Fees.{
  WithdrawalFeeResult, WithdrawalFeeBounds, WithdrawalFeeStateInput, WithdrawalFeeState, number,
  bigint, calculate_withdrawal_fee, normalize_fee_bps, normalize_optional, withdrawal_label,
  max_label, fee_exceeds_user_maximum, resolve_withdrawal_fee_state, active_above_max,
  on_chain_fee_bps, withdrawal_fee_bps,
}
use nullark.Core.Fees.Amounts.{
  CappedBy, IsCharged, calculate_withdrawal_fee-IsCharged, calculate_withdrawal_fee-total,
}
use nullark.Core.Fees.State.{IsResolved, resolve_withdrawal_fee_state-IsResolved}

abbrev loose : WithdrawalFeeBounds
loose = record {
  max_fee_bps = some (int (pos 50));
  max_fee_wei = some (pos 100);
  min_net_amount_wei = some (pos 9_000);
}

abbrev strict : WithdrawalFeeBounds
strict = record loose { max_fee_wei = some (pos 32) }

abbrev charged : WithdrawalFeeResult
charged = record { gross = pos 10_001; fee = pos 33; net = pos 9_968 }

fee_of_10001 : calculate_withdrawal_fee (pos 10_001) (bigint withdrawal_fee_bps) loose ≡ ok charged
unfolding calculate_withdrawal_fee ◌-ℤ◌
fee_of_10001 = refl

fee_too_high :
    calculate_withdrawal_fee (pos 10_001) (number (int (pos 33))) strict
    ≡ err fee_exceeds_user_maximum
unfolding calculate_withdrawal_fee ◌-ℤ◌
fee_too_high = refl

charged_10001 :
    (bps : ℕ) × (normalize_fee_bps (bigint withdrawal_fee_bps) withdrawal_label ≡ ok bps)
    × (max : Option ℕ) × (normalize_optional loose.max_fee_bps max_label ≡ ok max)
    × CappedBy bps max
    × IsCharged (pos 10_001) bps loose charged
charged_10001 =
    calculate_withdrawal_fee-IsCharged (pos 10_001) (bigint withdrawal_fee_bps) loose charged
      fee_of_10001

fee_of_500 :
    (result : WithdrawalFeeResult) × (calculate_withdrawal_fee
        (pos 500)
        (number (int (pos 33)))
        (record { max_fee_bps = none; max_fee_wei = none; min_net_amount_wei = none })
      ≡ ok result)
    × (pos 0 ≤ℤ result.net)
    × (result.net ≤ℤ pos 500)
fee_of_500 = calculate_withdrawal_fee-total (pos 500) 33 (omega arith) (omega arith)

abbrev fee_input : WithdrawalFeeStateInput
fee_input = record {
  active_fee_bps = int (pos 33);
  max_fee_bps = int (pos 100);
  pending_fee_bps = some (int (pos 40));
  pending_fee_activation_time = some "2026-01-01";
  source = on_chain_fee_bps;
}

abbrev fee_state : WithdrawalFeeState
fee_state = record {
  active_fee_bps = 33;
  max_fee_bps = 100;
  pending_fee_bps = some 40;
  pending_fee_activation_time = some "2026-01-01";
  pending_fee_active = false;
  source = on_chain_fee_bps;
}

abbrev any_time : String → Bool
any_time t = true

fee_input_accepted : resolve_withdrawal_fee_state any_time fee_input ≡ ok fee_state
unfolding resolve_withdrawal_fee_state
fee_input_accepted = refl

active_too_high :
    resolve_withdrawal_fee_state any_time (record fee_input { max_fee_bps = int (pos 20) })
    ≡ err active_above_max
unfolding resolve_withdrawal_fee_state
active_too_high = refl

fee_state-IsResolved : IsResolved any_time fee_input fee_state
fee_state-IsResolved =
    resolve_withdrawal_fee_state-IsResolved any_time fee_input fee_state fee_input_accepted
