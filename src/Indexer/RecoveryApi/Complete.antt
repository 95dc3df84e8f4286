-- ===== src/Indexer/RecoveryApi/Complete.antt =====
-- services/indexer/src/recoveryApi.ts: what the status of the checked ranges says of the blocks.
use nullark.Prelude.{
  ℕ, ◌≤◌, ◌≡◌, refl, false, some, inl, inr, ◌⊎◌, List, [], ◌∷◌, arith, Bool-cases, Option-cases,
  length, ltb, leb, leb→le,
}
use mathlib.Core.Path.{subst}
use nullark.Indexer.Ranges.{
  BlockRange, RangeTracker, InRange, Covered, IsMerged, find_missing_ranges,
}
use nullark.Indexer.Ranges.Missing.{find_missing_ranges_iff}
use nullark.Indexer.RecoveryApi.{
  RecoveryApiInput, status_of_ranges, missing_range_status, is_partial, or_block_zero,
}

in_or_out : (b : ℕ) (r : BlockRange) → InRange b r ⊎ (¬ InRange b r)
in_or_out b r = elim (Bool-cases (leb r.from_block b)) [
  | inr late ↦ inr (λ h. ground (arith, late, h))
  | inl started ↦ elim (Bool-cases (leb b r.to_block)) [
    | inl open_ ↦ inl (leb→le _ _ started, leb→le _ _ open_)
    | inr ended ↦ inr (λ h. ground (arith, ended, h))
  ]
]

covers_or_misses : (b : ℕ) (ranges : List BlockRange) → Covered b ranges ⊎ (¬ Covered b ranges)
covers_or_misses b [] = inr (λ h. h)
covers_or_misses b (r ∷ ranges) = elim (in_or_out b r) [
  | inl here ↦ inl (inl here)
  | inr not_here ↦ elim (covers_or_misses b ranges) [
    | inl there ↦ inl (inr there)
    | inr nowhere ↦ inr (elim [ inl h ↦ not_here h | inr h ↦ nowhere h ])
  ]
]

no_missing :
    (tracker : RangeTracker) (requested : BlockRange) (b : ℕ)
    → IsMerged tracker.checked_ranges
    → find_missing_ranges tracker requested ≡ []
    → InRange b requested
    → Covered b tracker.checked_ranges
no_missing tracker requested b m none_ h = elim (covers_or_misses b tracker.checked_ranges) [
  | inl covered ↦ covered
  | inr missing ↦
      absurd
        (subst (Covered b) none_ ((find_missing_ranges_iff tracker requested b m).1 (h, missing)))
]

length-zero : (xs : List BlockRange) → ltb 0 (length xs) ≡ false → xs ≡ []
length-zero [] h = refl
length-zero (x ∷ xs) h = absurd (ground (arith, h))

-- Every block from the start of the scan to the last one that was checked.
abbrev pub AllChecked : RecoveryApiInput → RangeTracker → Type 0
AllChecked input tracker =
    (b : ℕ)
    → or_block_zero input.scan_start_block ≤ b
    → b ≤ input.latest_checked_block
    → Covered b tracker.checked_ranges

not_partial :
    (tracker : RangeTracker) (start latest : ℕ)
    → (status_of_ranges tracker start latest).partial_sync ≡ false
    → find_missing_ranges tracker (record { from_block = start; to_block = latest }) ≡ []
unfolding status_of_ranges
not_partial tracker start latest = elim (Bool-cases (ltb latest start)) [
  | inl early ↦ rw early (λ h. cc)
  | inr late ↦ rw late (λ h. length-zero _ h)
]

-- A status that is not partial is that of a tracker which has checked all blocks.
pub missing_range_status-AllChecked :
    (input : RecoveryApiInput)
    → is_partial (missing_range_status input) ≡ false
    → (tracker : RangeTracker) × (input.checked_ranges ≡ some tracker)
      × (IsMerged tracker.checked_ranges → AllChecked input tracker)
unfolding missing_range_status
missing_range_status-AllChecked input = elim (Option-cases input.checked_ranges) [
  | inl e ↦ rw (e, missing_range_status) (λ h. cc)
  | inr (tracker, e) ↦
      rw (e, missing_range_status)
        (λ h. (
          tracker,
          refl,
          λ m b p q.
              no_missing tracker
                (record {
                  from_block = or_block_zero input.scan_start_block;
                  to_block = input.latest_checked_block;
                })
                b m (not_partial tracker _ _ h) (p, q),
        ))
]
