-- ===== src/Indexer/Ranges/Examples.antt =====
-- Runs of the range tracker.
use nullark.Prelude.{◌≡◌, refl, ok, [], ◌∷◌, arith, ◌↔◌, ◌⊎◌}
use nullark.Indexer.Ranges.{
  BlockRange, RangeTracker, IsMerged, Covered, InRange, mark_checked_range, find_missing_ranges,
}
use nullark.Indexer.Ranges.Merge.{mark_checked_range-IsMerged, mark_checked_range-covers}
use nullark.Indexer.Ranges.Missing.{find_missing_ranges_iff}
use nullark.Indexer.Ranges.Gaps.{find_missing_ranges-IsMerged, find_missing_ranges-mark}

abbrev checked : RangeTracker
checked = record {
  checked_ranges =
      record { from_block = 3; to_block = 5 } ∷ record { from_block = 10; to_block = 12 } ∷ [];
}

abbrev bridge : BlockRange
bridge = record { from_block = 5; to_block = 10 }

abbrev wide : BlockRange
wide = record { from_block = 1; to_block = 20 }

mark_joins :
    mark_checked_range checked (record { from_block = 6; to_block = 8 })
    ≡ ok (record {
      checked_ranges =
          record { from_block = 3; to_block = 8 } ∷ record { from_block = 10; to_block = 12 } ∷ [];
    })
unfolding mark_checked_range
mark_joins = refl

missing_gaps :
    find_missing_ranges checked (record { from_block = 1; to_block = 11 })
    ≡ record { from_block = 1; to_block = 2 } ∷ record { from_block = 6; to_block = 9 } ∷ []
unfolding find_missing_ranges
missing_gaps = refl

checked-IsMerged : IsMerged checked.checked_ranges
checked-IsMerged = record {
  proper = (omega arith, (omega arith, tt));
  apart = ((omega arith, tt), (tt, tt));
}

bridge-IsMerged :
    (after : RangeTracker) × (mark_checked_range checked bridge ≡ ok after)
    × IsMerged after.checked_ranges
bridge-IsMerged = mark_checked_range-IsMerged checked bridge checked-IsMerged (omega arith)

bridge_covers :
    (after : RangeTracker) × (mark_checked_range checked bridge ≡ ok after)
    × (Covered 7 after.checked_ranges ↔ (Covered 7 checked.checked_ranges ⊎ InRange 7 bridge))
bridge_covers = mark_checked_range-covers checked bridge checked-IsMerged (omega arith) 7

seven_missing :
    Covered 7 (find_missing_ranges checked wide)
    ↔ (InRange 7 wide × ¬ Covered 7 checked.checked_ranges)
seven_missing = find_missing_ranges_iff checked wide 7 checked-IsMerged

wide-IsMerged : IsMerged (find_missing_ranges checked wide)
wide-IsMerged = find_missing_ranges-IsMerged checked wide checked-IsMerged

nothing_missing :
    (after : RangeTracker) × (mark_checked_range checked wide ≡ ok after)
    × (find_missing_ranges after bridge ≡ [])
nothing_missing =
    find_missing_ranges-mark checked wide bridge checked-IsMerged (omega arith) (omega arith)
      (omega arith)
