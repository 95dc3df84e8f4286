-- ===== src/Core/Denominations/Examples.antt =====
-- Runs of the split and of the exits.
use nullark.Prelude.{
  ◌≡◌, ◌≢◌, ◌↔◌, refl, ok, err, List, [], ◌∷◌, none, some, Bool, true, arith, All, inl,
}
use nullark.Prelude.Int.{ℤ, pos, ◌-ℤ◌}
use nullark.Core.Denominations.{
  FixedDenominationSplitPolicy, SpendablePublicExitPolicy, split_into_fixed_denominations,
  unsupported_dust_remainder, exceeds_max_note_count, spendable_public_exit_amounts_for_note,
  normalize_denominations, is_supported_fixed_denomination, assert_fixed_denomination_public_exit,
}
use nullark.Core.Denominations.Normalize.{
  In, IsPositive, IsNormalized, normalize_denominations-IsNormalized,
  is_supported_fixed_denomination_lem,
}
use nullark.Core.Denominations.Outcome.{SplitOutcome, split_into_fixed_denominations-outcome}
use nullark.Core.Denominations.Units.{split_into_fixed_denominations-dust_free}
use nullark.Core.Denominations.Accepts.{spendable-iff_assert}

abbrev source : List ℤ
source = pos 2 ∷ pos 10 ∷ pos 5 ∷ pos 2 ∷ []

abbrev small : FixedDenominationSplitPolicy
small = record { denominations_wei = source; max_note_count = some 4 }

split_27 :
    split_into_fixed_denominations (pos 27) small
    ≡ ok (record {
      requested_amount_wei = pos 27;
      notes_wei = pos 10 ∷ pos 10 ∷ pos 5 ∷ pos 2 ∷ [];
      note_count = 4;
      unique_denominations_wei = pos 10 ∷ pos 5 ∷ pos 2 ∷ [];
    })
unfolding split_into_fixed_denominations ◌-ℤ◌
split_27 = refl

-- The greedy choice leaves dust even where another choice would not: 6 is 2 + 2 + 2.
split_6 : split_into_fixed_denominations (pos 6) small ≡ err (unsupported_dust_remainder (pos 1))
unfolding split_into_fixed_denominations ◌-ℤ◌
split_6 = refl

split_49 : split_into_fixed_denominations (pos 49) small ≡ err exceeds_max_note_count
unfolding split_into_fixed_denominations ◌-ℤ◌
split_49 = refl

source_given : source ≢ []
source_given h = cc

source-IsPositive : All IsPositive source
source-IsPositive = (omega arith, (omega arith, (omega arith, (omega arith, tt))))

split_27-outcome : SplitOutcome (pos 27) small (split_into_fixed_denominations (pos 27) small)
split_27-outcome =
    split_into_fixed_denominations-outcome (pos 27) small (omega arith) source_given
      source-IsPositive

abbrev coins : FixedDenominationSplitPolicy
coins = record { denominations_wei = pos 2 ∷ pos 4 ∷ pos 10 ∷ []; max_note_count = none }

split_26-dust_free :
    split_into_fixed_denominations (pos 26) coins ≢ err (unsupported_dust_remainder (pos 1))
split_26-dust_free =
    split_into_fixed_denominations-dust_free 2 (pos 26) coins (pos 1) (omega arith)
      (omega arith, (omega arith, (omega arith, tt))) (inl refl)
      ((1, refl), ((2, refl), ((5, refl), tt))) (13, refl)

abbrev exits : SpendablePublicExitPolicy
exits = record { split_policy = small; allow_full_exit = none }

exits_of_10 : spendable_public_exit_amounts_for_note (pos 10) exits ≡ ok (pos 10 ∷ pos 5 ∷ [])
unfolding spendable_public_exit_amounts_for_note ◌-ℤ◌
exits_of_10 = refl

five_of_ten :
    (amounts : List ℤ) × (spendable_public_exit_amounts_for_note (pos 10) exits ≡ ok amounts)
    × (In (pos 5) amounts ↔ (
        assert_fixed_denomination_public_exit
          (record { note_amount_wei = pos 10; gross_amount_wei = pos 5 })
          small
        ≡ ok (record { note_amount_wei = pos 10; gross_amount_wei = pos 5 })))
five_of_ten = spendable-iff_assert exits (pos 10) (pos 5) source_given source-IsPositive refl

source_normalized : normalize_denominations source ≡ ok (pos 10 ∷ pos 5 ∷ pos 2 ∷ [])
unfolding normalize_denominations
source_normalized = refl

source-IsNormalized : IsNormalized source (pos 10 ∷ pos 5 ∷ pos 2 ∷ [])
source-IsNormalized = normalize_denominations-IsNormalized source source_normalized

seven_supported :
    (answer : Bool) × (is_supported_fixed_denomination (pos 7) small ≡ ok answer)
    × ((answer ≡ true) ↔ In (pos 7) source)
seven_supported = is_supported_fixed_denomination_lem (pos 7) small source_normalized
