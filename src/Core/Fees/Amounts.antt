-- ===== src/Core/Fees/Amounts.antt =====
-- `calculateWithdrawalFee` and `canSweepFees`.
use mathlib.Core.Path.{subst}
use nullark.Prelude.{
  ℕ, ◌+◌, ◌*◌, ◌/◌, ◌≤◌, ◌<◌, ◌≡◌, refl, ◌↔◌, true, false, Option, none, some, arith, leb, ok,
  ok-injective, throw_if-ok, bind-ok,
}
use nullark.Prelude.Int.{ℤ, pos, negsuc, pos_part, ◌+ℤ◌, ◌-ℤ◌, ◌≤ℤ◌, ltb_ℤ, ltb_ℤ→le, int_laws}
use nullark.Prelude.Number.{int, max_safe_integer}
use nullark.Core.Fees.{
  number, WithdrawalFeeResult, WithdrawalFeeBounds, SweepCheck, FeeBps, bps_denominator, fee_of,
  charge, above_ℤ, below_ℤ, calculate_withdrawal_fee, normalize_fee_bps, normalize_optional,
  can_sweep_fees, withdrawal_label, max_label, fee_exceeds_user_maximum, net_below_user_minimum,
  withdrawal_below_minimum, fee_bps_above_max, min_withdrawal_amount, above,
}

abbrev AtMost : ℤ → Option ℤ → Type 0
AtMost x none = Unit
AtMost x (some limit) = x ≤ℤ limit

abbrev AtLeast : ℤ → Option ℤ → Type 0
AtLeast x none = Unit
AtLeast x (some limit) = limit ≤ℤ x

-- The fee is the share of the gross amount, rounded down.
abbrev IsShare : ℤ → ℕ → ℤ → Type 0
IsShare gross bps fee =
    (pos_part fee * bps_denominator ≤ pos_part gross * bps)
    × (pos_part gross * bps < (pos_part fee + 1) * bps_denominator)

fee_of-IsShare :
    (gross : ℤ) (bps : ℕ)
    → pos 0 ≤ℤ gross
    → (pos 0 ≤ℤ fee_of gross bps) × IsShare gross bps (fee_of gross bps)
unfolding fee_of
fee_of-IsShare (pos g) bps h =
    let e : fee_of (pos g) bps ≡ pos (g * bps / bps_denominator) = ground arith in
    rw e (omega arith, (omega arith, omega arith))
fee_of-IsShare (negsuc g) bps h = absurd (omega arith)

-- `max !== undefined` bounds the basis points.
abbrev pub CappedBy : ℕ → Option ℕ → Type 0
CappedBy bps none = Unit
CappedBy bps (some max) = bps ≤ max

-- What a charged withdrawal is: the fee is the rounded share, fee and net amount add up to the gross
-- amount, and the user's bounds hold.
pub record IsCharged (gross : ℤ) (bps : ℕ) (bounds : WithdrawalFeeBounds)
    (result : WithdrawalFeeResult) : Type 0 where
  pub enough : min_withdrawal_amount ≤ℤ gross
  pub same_gross : result.gross ≡ gross
  pub conserved : result.fee +ℤ result.net ≡ gross
  pub nonneg : pos 0 ≤ℤ result.fee
  pub share : IsShare gross bps result.fee
  pub within : AtMost result.fee bounds.max_fee_wei
  pub receives : AtLeast result.net bounds.min_net_amount_wei

above_ℤ-AtMost : (x : ℤ) (limit : Option ℤ) → above_ℤ x limit ≡ false → AtMost x limit
above_ℤ-AtMost x none e = tt
above_ℤ-AtMost x (some limit) e = ground arith

below_ℤ-AtLeast : (x : ℤ) (limit : Option ℤ) → below_ℤ x limit ≡ false → AtLeast x limit
below_ℤ-AtLeast x none e = tt
below_ℤ-AtLeast x (some limit) e = ground arith

charge-IsCharged :
    (gross : ℤ) (bps : ℕ) (bounds : WithdrawalFeeBounds)
    → min_withdrawal_amount ≤ℤ gross
    → (above_ℤ (fee_of gross bps) bounds.max_fee_wei ≡ false)
    → (below_ℤ (gross -ℤ fee_of gross bps) bounds.min_net_amount_wei ≡ false)
    → IsCharged gross bps bounds
        (record { gross = gross; fee = fee_of gross bps; net = gross -ℤ fee_of gross bps })
charge-IsCharged gross bps bounds h a b =
    let (nonneg, share) = fee_of-IsShare gross bps (omega arith) in
    record {
      enough = h;
      same_gross = refl;
      conserved = omega int_laws;
      nonneg = nonneg;
      share = share;
      within = above_ℤ-AtMost (fee_of gross bps) bounds.max_fee_wei a;
      receives = below_ℤ-AtLeast (gross -ℤ fee_of gross bps) bounds.min_net_amount_wei b;
    }

above-CappedBy : (bps : ℕ) (max : Option ℕ) → above bps max ≡ false → CappedBy bps max
above-CappedBy bps none e = tt
above-CappedBy bps (some max) e = ground arith

charge_lem :
    (gross : ℤ) (bps : ℕ) (bounds : WithdrawalFeeBounds) (result : WithdrawalFeeResult)
    → min_withdrawal_amount ≤ℤ gross
    → charge gross bps bounds ≡ ok result
    → IsCharged gross bps bounds result
unfolding charge
charge_lem gross bps bounds result h e =
    let (a, e₁) =
      throw_if-ok (above_ℤ (fee_of gross bps) bounds.max_fee_wei) fee_exceeds_user_maximum _ e in
    let (b, e₂) =
      throw_if-ok (below_ℤ (gross -ℤ fee_of gross bps) bounds.min_net_amount_wei)
        net_below_user_minimum _ e₁ in
    subst (IsCharged gross bps bounds) (ok-injective e₂) (charge-IsCharged gross bps bounds h a b)

module _ (gross : ℤ) (fee_bps : FeeBps) (bounds : WithdrawalFeeBounds)
    (result : WithdrawalFeeResult) where
  -- A successful call charges the rounded share of a basis-point value that is a non-negative safe
  -- integer and at most the bound on it; the fee and the net amount add up to the gross amount, and
  -- the user's bounds on both hold.
  pub calculate_withdrawal_fee-IsCharged :
      calculate_withdrawal_fee gross fee_bps bounds ≡ ok result
      → (bps : ℕ) × (normalize_fee_bps fee_bps withdrawal_label ≡ ok bps)
        × (max : Option ℕ) × (normalize_optional bounds.max_fee_bps max_label ≡ ok max)
        × CappedBy bps max
        × IsCharged gross bps bounds result
  unfolding calculate_withdrawal_fee
  calculate_withdrawal_fee-IsCharged e =
      let (enough, e₁) =
        throw_if-ok (ltb_ℤ gross min_withdrawal_amount) withdrawal_below_minimum _ e in
      let (bps, is_bps, e₂) = bind-ok (normalize_fee_bps fee_bps withdrawal_label) _ e₁ in
      let (max, is_max, e₃) = bind-ok (normalize_optional bounds.max_fee_bps max_label) _ e₂ in
      let (capped, e₄) = throw_if-ok (above bps max) fee_bps_above_max _ e₃ in
      (
        bps,
        is_bps,
        max,
        is_max,
        above-CappedBy bps max capped,
        charge_lem gross bps bounds result
            (omega (arith, ltb_ℤ→le gross min_withdrawal_amount enough)) e₄,
      )

fee-le : (g bps f : ℕ) → bps ≤ bps_denominator → f * bps_denominator ≤ g * bps → f ≤ g
fee-le g bps f h k = let most : g * bps ≤ g * bps_denominator = grind arith in omega arith

net_nonneg : (g bps : ℕ) → bps ≤ bps_denominator → pos 0 ≤ℤ pos g -ℤ fee_of (pos g) bps
net_nonneg g bps k =
    let (nonneg, share) = fee_of-IsShare (pos g) bps (omega arith) in
    let le = fee-le g bps (pos_part (fee_of (pos g) bps)) k share.0 in omega int_laws

net-le-gross : (gross fee : ℤ) → pos 0 ≤ℤ fee → gross -ℤ fee ≤ℤ gross
net-le-gross gross fee h = omega int_laws

-- With no bounds, a rate of at most the whole and a positive gross amount, the call succeeds, and the
-- net amount lies between nothing and the gross amount.
pub calculate_withdrawal_fee-total :
    (gross : ℤ) (bps : ℕ)
    → min_withdrawal_amount ≤ℤ gross
    → bps ≤ bps_denominator
    → (result : WithdrawalFeeResult) × (calculate_withdrawal_fee gross
          (number (int (pos bps)))
          (record { max_fee_bps = none; max_fee_wei = none; min_net_amount_wei = none })
        ≡ ok result)
      × (pos 0 ≤ℤ result.net)
      × (result.net ≤ℤ gross)
unfolding calculate_withdrawal_fee
calculate_withdrawal_fee-total (pos g) bps h k =
    let enough : ltb_ℤ (pos g) min_withdrawal_amount ≡ false = ground arith in
    let safe : leb bps max_safe_integer ≡ true = ground arith in
    (
      record { gross = pos g; fee = fee_of (pos g) bps; net = pos g -ℤ fee_of (pos g) bps },
      rw (enough, safe),
      net_nonneg g bps k,
      net-le-gross (pos g) (fee_of (pos g) bps) (fee_of-IsShare (pos g) bps (omega arith)).0,
    )
calculate_withdrawal_fee-total (negsuc g) bps h k = absurd (omega arith)

-- A sweep is allowed exactly if no amount is negative and what was swept before, with the requested
-- sweep, is at most what has accrued.
can_sweep_fees_iff :
    (check : SweepCheck)
    → (can_sweep_fees check ≡ true) ↔ (
        (pos 0 ≤ℤ check.fee_swept_accounting)
        × (pos 0 ≤ℤ check.requested_sweep)
        × (check.fee_swept_accounting +ℤ check.requested_sweep ≤ℤ check.accrued_protocol_fees))
unfolding can_sweep_fees ◌+ℤ◌ ◌-ℤ◌
can_sweep_fees_iff check = (λ h. ground arith, λ h. ground arith)
