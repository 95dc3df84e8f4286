-- ===== src/Indexer/Ranges/Gaps.antt =====
-- The form of what `findMissingRanges` returns, and its agreement with `markCheckedRange`.
use mathlib.Core.Path.{subst}
use nullark.Prelude.{
  ℕ, ◌+◌, ◌-◌, ◌≤◌, ◌<◌, ◌≡◌, refl, inl, inr, true, List, [], ◌∷◌, arith, ltb, leb, Bool-cases,
  tests, not_tests, ok, All, All-mono,
}
use nullark.Indexer.Ranges.{
  BlockRange, RangeTracker, remaining, missing_from, find_missing_ranges, mark_checked_range,
  Covered, IsRange, Apart, IsMerged,
}
use nullark.Indexer.Ranges.Merge.{mark_checked_range-IsMerged, mark_checked_range-covers}
use nullark.Indexer.Ranges.Missing.{find_missing_ranges_iff}

abbrev StartsAt : ℕ → BlockRange → Type 0
StartsAt n r = n ≤ r.from_block

-- Proper ranges, apart from one another, none of which starts before the cursor.
record IsGaps (cursor : ℕ) (ranges : List BlockRange) : Type 0 where
  starts : All (StartsAt cursor) ranges
  merged : IsMerged ranges

remaining-IsGaps : (to cursor : ℕ) → IsGaps cursor (remaining to cursor)
remaining-IsGaps to cursor = elim (Bool-cases (leb cursor to)) [
  | inl e ↦ rw e (record {
    starts = (omega arith, tt);
    merged = record { proper = (omega (tests, e), tt); apart = (tt, tt) };
  })
  | inr e ↦ rw e (record { starts = tt; merged = record { proper = tt; apart = tt } })
]

later-IsGaps :
    (n cursor : ℕ) (ranges : List BlockRange) → cursor ≤ n → IsGaps n ranges → IsGaps cursor ranges
later-IsGaps n cursor ranges h g = record {
  starts = All-mono (StartsAt n) (StartsAt cursor) (λ r k. omega arith) ranges g.starts;
  merged = g.merged;
}

gap-IsGaps :
    (cursor : ℕ) (checked : BlockRange) (ranges : List BlockRange)
    → cursor < checked.from_block
    → IsRange checked
    → IsGaps (checked.to_block + 1) ranges
    → IsGaps cursor (record { from_block = cursor; to_block = checked.from_block - 1 } ∷ ranges)
gap-IsGaps cursor checked ranges h p g =
    let gap : BlockRange = record { from_block = cursor; to_block = checked.from_block - 1 } in
    record {
      starts = (
        omega arith,
        All-mono (StartsAt (checked.to_block + 1)) (StartsAt cursor) (λ r k. omega arith) ranges
            g.starts,
      );
      merged = record {
        proper = (omega arith, g.merged.proper);
        apart = (
          All-mono (StartsAt (checked.to_block + 1)) (Apart gap) (λ r k. omega arith) ranges
              g.starts,
          g.merged.apart,
        );
      };
    }

missing_from-IsGaps :
    (to cursor : ℕ) (ranges : List BlockRange)
    → All IsRange ranges
    → IsGaps cursor (missing_from to cursor ranges)
unfolding missing_from
missing_from-IsGaps to cursor [] p = remaining-IsGaps to cursor
missing_from-IsGaps to cursor (checked ∷ ranges) p =
    elim (Bool-cases (ltb checked.to_block cursor)) [
      | inl past ↦ rw past (missing_from-IsGaps to cursor ranges p.1)
      | inr here ↦ elim (Bool-cases (ltb to checked.from_block)) [
        | inl beyond ↦ rw (here, beyond) (remaining-IsGaps to cursor)
        | inr reach ↦
            let ih = missing_from-IsGaps to (checked.to_block + 1) ranges p.1 in
            let moved : ltb cursor (checked.to_block + 1) ≡ true = ground arith in
            elim (Bool-cases (ltb cursor checked.from_block)) [
              | inl gap ↦
                  rw (here, reach, moved, gap)
                    (gap-IsGaps cursor checked _ (omega (tests, gap)) p.0 ih)
              | inr no_gap ↦
                  rw (here, reach, moved, no_gap)
                    (later-IsGaps (checked.to_block + 1) cursor _ (omega (not_tests, here)) ih)
            ]
      ]
    ]

-- On a tracker in form the missing ranges are proper, in order and apart.
pub find_missing_ranges-IsMerged :
    (tracker : RangeTracker) (requested : BlockRange)
    → IsMerged tracker.checked_ranges
    → IsMerged (find_missing_ranges tracker requested)
unfolding find_missing_ranges
find_missing_ranges-IsMerged tracker requested m =
    (missing_from-IsGaps requested.to_block requested.from_block tracker.checked_ranges
      m.proper).merged

-- Proper ranges that cover no block are none.
covers_nothing :
    (ranges : List BlockRange) → All IsRange ranges → ((b : ℕ) → ¬ Covered b ranges) → ranges ≡ []
covers_nothing [] p h = refl
covers_nothing (r ∷ ranges) p h = absurd (h r.from_block (inl (omega arith, p.0)))

-- Once a proper range is marked, on a tracker in form, no request inside it misses a block.
pub find_missing_ranges-mark :
    (tracker : RangeTracker) (range requested : BlockRange)
    → IsMerged tracker.checked_ranges
    → IsRange range
    → range.from_block ≤ requested.from_block
    → requested.to_block ≤ range.to_block
    → (after : RangeTracker) × (mark_checked_range tracker range ≡ ok after)
      × (find_missing_ranges after requested ≡ [])
find_missing_ranges-mark tracker range requested m p from upto =
    let (after, marked, in_form) = mark_checked_range-IsMerged tracker range m p in
    (
      after,
      marked,
      covers_nothing _ (find_missing_ranges-IsMerged after requested in_form).proper (λ b missing.
          let (inside, free) = (find_missing_ranges_iff after requested b in_form).0 missing in
          let (again, same, covers) = mark_checked_range-covers tracker range m p b in
          let same_after : again ≡ after = cc (same, marked) in
          free (
            subst (λ t. Covered b t.checked_ranges) same_after
              (covers.1 (inr (omega arith, omega arith))))),
    )
