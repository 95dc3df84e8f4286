-- ===== src/Indexer/Ranges/Missing.antt =====
-- `findMissingRanges`: exactly the requested blocks that no checked range covers.
use mathlib.Core.Logic.Iff
use native.Mathlib.Decide.{dec_lt}
use nullark.Prelude.{
  ℕ, ◌+◌, ◌-◌, ◌≤◌, ◌<◌, ◌≡◌, ◌↔◌, ◌⊎◌, inl, inr, true, false, List, [], ◌∷◌, arith, ltb,
  Bool-cases, tests, not_tests, All, leb,
}
use nullark.Indexer.Ranges.{
  BlockRange, RangeTracker, remaining, missing_from, find_missing_ranges, InRange, Covered, IsRange,
  Apart, IsMerged,
}

-- What the loop is to report: from the cursor to the end, without the ranges that are left.
abbrev Missing : ℕ → ℕ → List BlockRange → ℕ → Type 0
Missing to cursor ranges b = (cursor ≤ b) × (b ≤ to) × ¬ Covered b ranges

module _ (to b : ℕ) where
  not_behind :
      (checked : BlockRange) (ranges : List BlockRange)
      → All (Apart checked) ranges
      → All IsRange ranges
      → b ≤ checked.to_block + 1
      → ¬ Covered b ranges
  not_behind checked [] a p h c = c
  not_behind checked (r ∷ ranges) a p h (inl c) = omega (arith, a.0, p.0)
  not_behind checked (r ∷ ranges) a p h (inr c) = not_behind checked ranges a.1 p.1 h c

  remaining_iff : (cursor : ℕ) → Covered b (remaining to cursor) ↔ ((cursor ≤ b) × (b ≤ to))
  remaining_iff cursor = elim (Bool-cases (leb cursor to)) [
    | inl e ↦ rw e (elim [ inl h ↦ h | inr h ↦ absurd h ], λ h. inl h)
    | inr e ↦ rw e (λ h. absurd h, λ h. absurd (ground arith))
  ]

  module _ (checked : BlockRange) (ranges : List BlockRange) (m : IsMerged (checked ∷ ranges)) where
    -- Past the whole range: nothing behind the loop's position is missing twice.
    skip_iff :
        (cursor : ℕ)
        → checked.to_block < cursor
        → Missing to cursor ranges b ↔ Missing to cursor (checked ∷ ranges) b
    skip_iff cursor past = (
      λ (from, upto, free). (from, upto, elim [ inl c ↦ omega arith | inr c ↦ free c ]),
      λ (from, upto, free). (from, upto, λ c. free (inr c)),
    )

    -- No later range reaches back to the requested end.
    stop_iff :
        (cursor : ℕ)
        → to < checked.from_block
        → ((cursor ≤ b) × (b ≤ to)) ↔ Missing to cursor (checked ∷ ranges) b
    stop_iff cursor beyond = (
      λ (from, upto). (
        from,
        upto,
        elim [
          | inl c ↦ omega arith
          | inr c ↦ not_behind checked ranges m.apart.0 m.proper.1 (omega (arith, m.proper.0)) c
        ],
      ),
      λ (from, upto, _). (from, upto),
    )

    -- What is missing lies before the range, or behind it.
    pass_iff :
        (cursor : ℕ)
        → cursor ≤ checked.to_block
        → checked.from_block ≤ to
        → (((cursor ≤ b) × (b < checked.from_block)) ⊎ Missing to (checked.to_block + 1) ranges b)
          ↔ Missing to cursor (checked ∷ ranges) b
    pass_iff cursor here reach = (
      elim [
        | inl (from, before) ↦ (
          from,
          omega arith,
          elim [
            | inl c ↦ omega arith
            | inr c ↦ not_behind checked ranges m.apart.0 m.proper.1 (omega (arith, m.proper.0)) c
          ],
        )
        | inr (from, upto, free) ↦
            (omega arith, upto, elim [ inl c ↦ omega arith | inr c ↦ free c ])
      ],
      λ (from, upto, free). elim (dec_lt b checked.from_block) [
        | yes before ↦ inl (from, before)
        | no behind ↦ elim (dec_lt checked.to_block b) [
          | yes after ↦ inr (omega arith, upto, λ c. free (inr c))
          | no before ↦ absurd (free (inl (omega arith, omega arith)))
        ]
      ],
    )

  module _ (cursor : ℕ) (checked : BlockRange) {Q R : Type 0} where
    gap_iff :
        ltb cursor checked.from_block ≡ true
        → Q ↔ R
        → (((cursor ≤ b) × (b ≤ checked.from_block - 1)) ⊎ Q)
          ↔ (((cursor ≤ b) × (b < checked.from_block)) ⊎ R)
    gap_iff gap i = (
      elim [ inl h ↦ inl (h.0, ground arith) | inr q ↦ inr (i.0 q) ],
      elim [ inl h ↦ inl (h.0, ground arith) | inr r ↦ inr (i.1 r) ],
    )

    no_gap_iff :
        ltb cursor checked.from_block ≡ false
        → Q ↔ R
        → Q ↔ (((cursor ≤ b) × (b < checked.from_block)) ⊎ R)
    no_gap_iff none i = (λ q. inr (i.0 q), elim [ inl h ↦ absurd (ground arith) | inr r ↦ i.1 r ])

  missing_from_iff :
      (cursor : ℕ) (ranges : List BlockRange)
      → IsMerged ranges
      → Covered b (missing_from to cursor ranges) ↔ Missing to cursor ranges b
  unfolding missing_from
  missing_from_iff cursor [] m =
      let last = remaining_iff cursor in
      (λ h. ((last.0 h).0, (last.0 h).1, λ c. c), λ h. last.1 (h.0, h.1))
  missing_from_iff cursor (checked ∷ ranges) m =
      let rest : IsMerged ranges = record { proper = m.proper.1; apart = m.apart.1 } in
      elim (Bool-cases (ltb checked.to_block cursor)) [
        | inl past ↦ rw past (
            Iff.trans (missing_from_iff cursor ranges rest)
              (skip_iff checked ranges m cursor (omega (tests, past))))
        | inr here ↦ elim (Bool-cases (ltb to checked.from_block)) [
          | inl beyond ↦
              rw (here, beyond)
                (Iff.trans (remaining_iff cursor)
                  (stop_iff checked ranges m cursor (omega (tests, beyond))))
          | inr reach ↦
              let ih = missing_from_iff (checked.to_block + 1) ranges rest in
              let passed =
                pass_iff checked ranges m cursor (omega (not_tests, here))
                  (omega (not_tests, reach)) in
              let moved : ltb cursor (checked.to_block + 1) ≡ true = ground arith in
              elim (Bool-cases (ltb cursor checked.from_block)) [
                | inl gap ↦
                    rw (here, reach, moved, gap) (Iff.trans (gap_iff cursor checked gap ih) passed)
                | inr none ↦
                    rw (here, reach, moved, none)
                      (Iff.trans (no_gap_iff cursor checked none ih) passed)
              ]
        ]
      ]

-- On a tracker in form the result covers exactly the blocks of the request that are not checked.
pub find_missing_ranges_iff :
    (tracker : RangeTracker) (requested : BlockRange) (b : ℕ)
    → IsMerged tracker.checked_ranges
    → Covered b (find_missing_ranges tracker requested)
      ↔ (InRange b requested × ¬ Covered b tracker.checked_ranges)
unfolding find_missing_ranges
find_missing_ranges_iff tracker requested b m =
    let i = missing_from_iff requested.to_block b requested.from_block tracker.checked_ranges m in
    (λ h. (((i.0 h).0, (i.0 h).1), (i.0 h).2), λ h. i.1 (h.0.0, h.0.1, h.1))
