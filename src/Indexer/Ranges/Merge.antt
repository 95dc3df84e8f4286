-- ===== src/Indexer/Ranges/Merge.antt =====
-- `markCheckedRange`: the merged list is in form and covers what was covered and the new range.
use nullark.Prelude.{
  ℕ, ◌+◌, ◌≤◌, ◌<◌, ◌≡◌, ◌↔◌, ◌⊎◌, inl, inr, false, List, [], ◌∷◌, ◌++◌, arith, ltb, Bool-cases,
  tests, ok, err, All, All-append, Any-append, All-mono, IsSorted,
}
use nullark.Prelude.Sort.{sort_by, All-sort_by, Any-sort_by, sort_by-IsSorted}
use nullark.Indexer.Ranges.{
  BlockRange, RangeTracker, invalid_checked_block_range, starts_before, extend, merge_from,
  merge_sorted, mark_checked_range, InRange, Covered, IsRange, Apart, IsMerged,
}

abbrev StartsNoLater : BlockRange → BlockRange → Type 0
StartsNoLater a b = a.from_block ≤ b.from_block

extend-IsRange :
    (last next : BlockRange)
    → IsRange last
    → IsRange (extend last next) × ((extend last next).from_block ≡ last.from_block)
extend-IsRange last next h = ground arith

extend_covers :
    (b : ℕ) (last next : BlockRange)
    → IsRange last
    → StartsNoLater last next
    → ltb (last.to_block + 1) next.from_block ≡ false
    → InRange b (extend last next) ↔ (InRange b last ⊎ InRange b next)
extend_covers b last next p s e = (λ h. ground arith, λ h. ground arith)

extend-IsSorted :
    (last next : BlockRange) (rest : List BlockRange)
    → IsRange last
    → IsSorted StartsNoLater (last ∷ next ∷ rest)
    → IsSorted StartsNoLater (extend last next ∷ rest)
extend-IsSorted last next rest p s = (
  All-mono (StartsNoLater last) (StartsNoLater (extend last next))
      (λ r h. omega (arith, (extend-IsRange last next p).1)) rest s.0.1,
  s.1.1,
)

module _ (b : ℕ) where
  merge_from-covers :
      (last : BlockRange) (rest : List BlockRange)
      → IsRange last
      → All IsRange rest
      → IsSorted StartsNoLater (last ∷ rest)
      → Covered b (merge_from last rest) ↔ (InRange b last ⊎ Covered b rest)
  unfolding merge_from
  merge_from-covers last [] p q s = (λ h. h, λ h. h)
  merge_from-covers last (next ∷ rest) p q s =
      elim (Bool-cases (ltb (last.to_block + 1) next.from_block)) [
        | inl e ↦
            let ih = merge_from-covers next rest q.0 q.1 s.1 in
            rw e (
              elim [ inl here ↦ inl here | inr there ↦ inr (ih.0 there) ],
              elim [ inl here ↦ inl here | inr there ↦ inr (ih.1 there) ],
            )
        | inr e ↦
            let joined = extend_covers b last next p s.0.0 e in
            let ih =
              merge_from-covers (extend last next) rest (extend-IsRange last next p).0 q.1
                (extend-IsSorted last next rest p s) in
            rw e (
              λ h. elim (ih.0 h) [
                | inl here ↦ elim (joined.0 here) [ inl l ↦ inl l | inr n ↦ inr (inl n) ]
                | inr there ↦ inr (inr there)
              ],
              elim [
                | inl l ↦ ih.1 (inl (joined.1 (inl l)))
                | inr d ↦ elim d [
                  | inl n ↦ ih.1 (inl (joined.1 (inr n)))
                  | inr there ↦ ih.1 (inr there)
                ]
              ],
            )
      ]

  merge_sorted-covers :
      (ranges : List BlockRange)
      → All IsRange ranges
      → IsSorted StartsNoLater ranges
      → Covered b (merge_sorted ranges) ↔ Covered b ranges
  unfolding merge_sorted
  merge_sorted-covers [] q s = (λ h. h, λ h. h)
  merge_sorted-covers (first ∷ rest) q s = merge_from-covers first rest q.0 q.1 s

-- No merged range starts before the one that the loop carries.
merge_from-starts :
    (last : BlockRange) (rest : List BlockRange)
    → IsRange last
    → All IsRange rest
    → IsSorted StartsNoLater (last ∷ rest)
    → All (StartsNoLater last) (merge_from last rest)
unfolding merge_from
merge_from-starts last [] p q s = (omega arith, tt)
merge_from-starts last (next ∷ rest) p q s =
    elim (Bool-cases (ltb (last.to_block + 1) next.from_block)) [
      | inl e ↦ rw e (
        omega arith,
        All-mono (StartsNoLater next) (StartsNoLater last) (λ r h. omega (arith, s.0.0)) _
            (merge_from-starts next rest q.0 q.1 s.1),
      )
      | inr e ↦
          let same = extend-IsRange last next p in
          rw e (
            All-mono (StartsNoLater (extend last next)) (StartsNoLater last)
              (λ r h. omega (arith, same.1)) _
              (merge_from-starts (extend last next) rest same.0 q.1
                (extend-IsSorted last next rest p s)))
    ]

merge_from-IsMerged :
    (last : BlockRange) (rest : List BlockRange)
    → IsRange last
    → All IsRange rest
    → IsSorted StartsNoLater (last ∷ rest)
    → IsMerged (merge_from last rest)
unfolding merge_from
merge_from-IsMerged last [] p q s = record { proper = (p, tt); apart = (tt, tt) }
merge_from-IsMerged last (next ∷ rest) p q s =
    elim (Bool-cases (ltb (last.to_block + 1) next.from_block)) [
      | inl e ↦
          let ih = merge_from-IsMerged next rest q.0 q.1 s.1 in
          let behind =
            All-mono (StartsNoLater next) (Apart last) (λ r h. omega (tests, e)) _
              (merge_from-starts next rest q.0 q.1 s.1) in
          rw e (record { proper = (p, ih.proper); apart = (behind, ih.apart) })
      | inr e ↦ rw e (
          merge_from-IsMerged (extend last next) rest (extend-IsRange last next p).0 q.1
            (extend-IsSorted last next rest p s))
    ]

merge_sorted-IsMerged :
    (ranges : List BlockRange)
    → All IsRange ranges
    → IsSorted StartsNoLater ranges
    → IsMerged (merge_sorted ranges)
unfolding merge_sorted
merge_sorted-IsMerged [] q s = record { proper = tt; apart = tt }
merge_sorted-IsMerged (first ∷ rest) q s = merge_from-IsMerged first rest q.0 q.1 s

StartsNoLater-trans :
    (a b c : BlockRange) → StartsNoLater a b → StartsNoLater b c → StartsNoLater a c
StartsNoLater-trans a b c h k = omega arith

module _ (tracker : RangeTracker) (range : BlockRange) where
  abbrev ranges : List BlockRange
  ranges = sort_by starts_before (tracker.checked_ranges ++ range ∷ [])

  module _ (in_form : IsMerged tracker.checked_ranges) (is_range : IsRange range) where
    All-proper : All IsRange ranges
    All-proper =
        (All-sort_by starts_before IsRange _).1
          (All-append IsRange tracker.checked_ranges (range ∷ []) in_form.proper (is_range, tt))

    in_order : IsSorted StartsNoLater ranges
    in_order =
        sort_by-IsSorted starts_before StartsNoLater StartsNoLater-trans (λ a b e. omega (tests, e))
          (λ a b e. ground arith) _

    accepted :
        mark_checked_range tracker range ≡ ok (record { checked_ranges = merge_sorted ranges })
    unfolding mark_checked_range
    accepted = ground arith

    -- Marking a proper range on a tracker in form succeeds, and the new tracker is in form: proper
    -- ranges, in order, with a block between any two of them.
    pub mark_checked_range-IsMerged :
        (after : RangeTracker) × (mark_checked_range tracker range ≡ ok after)
        × IsMerged after.checked_ranges
    mark_checked_range-IsMerged = (
      record { checked_ranges = merge_sorted ranges },
      accepted,
      merge_sorted-IsMerged ranges All-proper in_order,
    )

    -- Marking a proper range on a tracker in form succeeds, and a block is covered afterwards
    -- exactly if it was covered before or lies in the range.
    pub mark_checked_range-covers :
        (b : ℕ)
        → (after : RangeTracker) × (mark_checked_range tracker range ≡ ok after)
          × (Covered b after.checked_ranges ↔ (Covered b tracker.checked_ranges ⊎ InRange b range))
    mark_checked_range-covers b =
        let merged = merge_sorted-covers b ranges All-proper in_order in
        let sorted = Any-sort_by starts_before (InRange b) (tracker.checked_ranges ++ range ∷ []) in
        let split = Any-append (InRange b) tracker.checked_ranges (range ∷ []) in
        (
          record { checked_ranges = merge_sorted ranges },
          accepted,
          (
            λ h. elim (split.0 (sorted.0 (merged.0 h))) [
              | inl old ↦ inl old
              | inr new ↦ elim new [ inl n ↦ inr n | inr n ↦ absurd n ]
            ],
            elim [
              | inl old ↦ merged.1 (sorted.1 (split.1 (inl old)))
              | inr new ↦ merged.1 (sorted.1 (split.1 (inr (inl new))))
            ],
          ),
        )

-- Exactly a range that ends before it starts is refused.
mark_checked_range-err_iff :
    (tracker : RangeTracker) (range : BlockRange)
    → (mark_checked_range tracker range ≡ err invalid_checked_block_range)
      ↔ (range.to_block < range.from_block)
unfolding mark_checked_range
mark_checked_range-err_iff tracker range = (λ h. ground arith, λ h. ground arith)
