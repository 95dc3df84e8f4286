-- ===== src/Core/Fees/State.antt =====
-- `resolveWithdrawalFeeState`: what an accepted state is.
use mathlib.Core.Path.{subst}
use Prim.Native.String.{String}
use nullark.Prelude.{
  ℕ, ◌≤◌, ◌≡◌, refl, Bool, false, Option, none, some, arith, ltb, ok, ok-injective, throw_if-ok,
  bind-ok,
}
use nullark.Prelude.Int.{pos, negsuc}
use nullark.Prelude.Number.{Number, int, not_integer}
use nullark.Core.Fees.{
  WithdrawalFeeStateInput, WithdrawalFeeState, FeeError, FeeLabel, number, active_label,
  max_withdrawal_label, pending_label, active_above_max, pending_above_max, activation_time_not_iso,
  normalize_fee_bps, normalize_optional, pending_above, bad_time, resolve_withdrawal_fee_state,
}

-- A number that stands for a natural number, and an optional one.
abbrev Is : Number → ℕ → Type 0
Is x n = x ≡ int (pos n)

abbrev IsOptional : Option Number → Option ℕ → Type 0
IsOptional none none = Unit
IsOptional (some x) (some n) = Is x n
IsOptional _ _ = ⊥

abbrev CappedBy : Option ℕ → ℕ → Type 0
CappedBy none max = Unit
CappedBy (some pending) max = pending ≤ max

normalize_fee_bps-Is :
    (x : Number) (label : FeeLabel) (n : ℕ) → normalize_fee_bps (number x) label ≡ ok n → Is x n
unfolding normalize_fee_bps
normalize_fee_bps-Is (int (pos m)) label n e = ground arith
normalize_fee_bps-Is (int (negsuc m)) label n e = ground arith
normalize_fee_bps-Is (not_integer _) label n e = ground arith

normalize_optional-Is :
    (x : Option Number) (label : FeeLabel) (n : Option ℕ)
    → normalize_optional x label ≡ ok n
    → IsOptional x n
unfolding normalize_optional
normalize_optional-Is none label n e = subst (IsOptional none) (ok-injective {E = FeeError} e) tt
normalize_optional-Is (some x) label n e =
    let (m, is_m, e₁) = bind-ok (normalize_fee_bps (number x) label) _ e in
    subst (IsOptional (some x)) (ok-injective {E = FeeError} e₁)
      (normalize_fee_bps-Is x label m is_m)

pending_above-CappedBy :
    (pending : Option ℕ) (max : ℕ) → pending_above pending max ≡ false → CappedBy pending max
pending_above-CappedBy none max e = tt
pending_above-CappedBy (some pending) max e = ground arith

module _ (is_timestamp : String → Bool) (input : WithdrawalFeeStateInput) where
  -- What an accepted state says of the input: the rates are the input's, neither the active rate
  -- nor a pending one is above the maximum, the pending rate is not active, and an activation time is
  -- a timestamp.
  pub record IsResolved (state : WithdrawalFeeState) : Type 0 where
    pub active : Is input.active_fee_bps state.active_fee_bps
    pub max : Is input.max_fee_bps state.max_fee_bps
    pub capped : state.active_fee_bps ≤ state.max_fee_bps
    pub pending : IsOptional input.pending_fee_bps state.pending_fee_bps
    pub pending_capped : CappedBy state.pending_fee_bps state.max_fee_bps
    pub inactive : state.pending_fee_active ≡ false
    pub time : state.pending_fee_activation_time ≡ input.pending_fee_activation_time
    pub timestamp : bad_time is_timestamp state.pending_fee_activation_time ≡ false

  -- An accepted fee state keeps the rates of the input, has neither an active nor a pending rate above
  -- the maximum, marks no pending rate as active, and has a parsable activation time if any.
  pub resolve_withdrawal_fee_state-IsResolved :
      (state : WithdrawalFeeState)
      → resolve_withdrawal_fee_state is_timestamp input ≡ ok state
      → IsResolved state
  unfolding resolve_withdrawal_fee_state
  resolve_withdrawal_fee_state-IsResolved state e =
      let (active, is_active, e₁) =
        bind-ok (normalize_fee_bps (number input.active_fee_bps) active_label) _ e in
      let (max, is_max, e₂) =
        bind-ok (normalize_fee_bps (number input.max_fee_bps) max_withdrawal_label) _ e₁ in
      let (capped, e₃) = throw_if-ok (ltb max active) active_above_max _ e₂ in
      let (pending, is_pending, e₄) =
        bind-ok (normalize_optional input.pending_fee_bps pending_label) _ e₃ in
      let (pending_capped, e₅) = throw_if-ok (pending_above pending max) pending_above_max _ e₄ in
      let (timestamp, e₆) =
        throw_if-ok (bad_time is_timestamp input.pending_fee_activation_time)
          activation_time_not_iso _ e₅ in
      subst IsResolved (ok-injective {E = FeeError} e₆) (record {
        active = normalize_fee_bps-Is input.active_fee_bps active_label active is_active;
        max = normalize_fee_bps-Is input.max_fee_bps max_withdrawal_label max is_max;
        capped = ground arith;
        pending = normalize_optional-Is input.pending_fee_bps pending_label pending is_pending;
        pending_capped = pending_above-CappedBy pending max pending_capped;
        inactive = refl;
        time = refl;
        timestamp = timestamp;
      })
