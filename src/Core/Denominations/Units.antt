-- ===== src/Core/Denominations/Units.antt =====
-- Amounts in whole units of the smallest denomination leave no dust.
use mathlib.Core.Path.{subst}
use native.Mathlib.Decide.{dec_lt}
use nullark.Prelude.{ℕ, ◌+◌, ◌*◌, ◌≤◌, ◌<◌, ◌≡◌, ◌≢◌, List, [], ◌∷◌, arith, All, err}
use nullark.Prelude.Int.{ℤ, sum_ℤ, pos, negsuc, ◌+ℤ◌, ◌<ℤ◌}
use nullark.Core.Denominations.{
  FixedDenominationSplitPolicy, unsupported_dust_remainder, split_into_fixed_denominations,
}
use nullark.Core.Denominations.Normalize.{In, All-In, IsPositive}
use nullark.Core.Denominations.Outcome.{split_into_fixed_denominations-outcome}

-- A whole number of units.
abbrev pub IsMultiple : ℕ → ℤ → Type 0
IsMultiple unit x = (k : ℕ) × (x ≡ pos (k * unit))

sum_ℤ-IsMultiple :
    (unit : ℕ) (source notes : List ℤ)
    → All (IsMultiple unit) source
    → All (λ x. In x source) notes
    → IsMultiple unit (sum_ℤ notes)
unfolding sum_ℤ ◌+ℤ◌
sum_ℤ-IsMultiple unit source [] m k = (0, ground arith)
sum_ℤ-IsMultiple unit source (x ∷ xs) m k =
    let (a, is_a) = All-In (IsMultiple unit) source x m k.0 in
    let (b, is_b) = sum_ℤ-IsMultiple unit source xs m k.1 in (a + b, rw (is_a, is_b) (ground arith))

between : (unit a b n : ℕ) → a * unit + n ≡ b * unit → 0 < n → n < unit → ⊥
between unit a b n e p l = elim (dec_lt a b) [
  | yes lt ↦ let step : (a + 1) * unit ≤ b * unit = grind arith in omega arith
  | no ge ↦ let back : b * unit ≤ a * unit = grind arith in omega arith
]

no_remainder :
    (unit a b : ℕ) (r : ℤ) → pos (a * unit) +ℤ r ≡ pos (b * unit) → pos 0 <ℤ r → r <ℤ pos unit → ⊥
unfolding ◌+ℤ◌
no_remainder unit a b (pos n) e p l = between unit a b n (ground arith) (omega arith) (omega arith)
no_remainder unit a b (negsuc n) e p l = omega arith

module _ (unit : ℕ) (amount : ℤ) (policy : FixedDenominationSplitPolicy) where
  -- Where every denomination is a multiple of the unit, and the unit is one of them, a positive
  -- multiple of the unit is never refused for dust.
  pub split_into_fixed_denominations-dust_free :
      (r : ℤ)
      → pos 0 <ℤ amount
      → All IsPositive policy.denominations_wei
      → In (pos unit) policy.denominations_wei
      → All (IsMultiple unit) policy.denominations_wei
      → IsMultiple unit amount
      → split_into_fixed_denominations amount policy ≢ err (unsupported_dust_remainder r)
  split_into_fixed_denominations-dust_free r p positive has_unit multiples (b, is_b) e =
      let (above, below, notes, known, adds_up) = rw e at (
        split_into_fixed_denominations-outcome amount policy p
          (λ z. subst (In (pos unit)) z has_unit) positive) in
      let (a, is_a) = sum_ℤ-IsMultiple unit policy.denominations_wei notes multiples known in
      no_remainder unit a b r (rw (← is_a, ← is_b) adds_up) above
        (All-In (λ d. r <ℤ d) policy.denominations_wei (pos unit) below has_unit)
