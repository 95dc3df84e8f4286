-- ===== src/Indexer/Ranges.antt =====
-- services/indexer/src/ranges.ts: which blocks have been checked for logs. Block numbers are
-- non-negative `bigint`s, so they are native numbers.
pub mod Merge
pub mod Missing
pub mod Gaps
mod Examples
use nullark.Prelude.{
  ℕ, ◌+◌, ◌-◌, ◌≤◌, ◌<◌, Bool, List, [], ◌∷◌, ◌++◌, ltb, leb, if◌then◌else◌, Result, ok, err, Any,
  All, IsSorted,
}
use nullark.Prelude.Sort.{sort_by}

pub record BlockRange : Type 0 where
  pub from_block : ℕ
  pub to_block : ℕ

pub record RangeTracker : Type 0 where
  pub checked_ranges : List BlockRange

pub data RangeError : Type 0 where
  invalid_checked_block_range : RangeError

abbrev pub create_range_tracker : RangeTracker
create_range_tracker = record { checked_ranges = [] }

-- The comparator of the sort: `a.fromBlock < b.fromBlock ? -1 : 1`.
abbrev pub starts_before : BlockRange → BlockRange → Bool
starts_before a b = ltb a.from_block b.from_block

-- `if (next.toBlock > last.toBlock) last.toBlock = next.toBlock`
abbrev pub extend : BlockRange → BlockRange → BlockRange
extend last next =
    if ltb last.to_block next.to_block then record last { to_block = next.to_block } else last

-- The loop over the sorted ranges. `last` is the last element of `merged`; the elements before it
-- are final, and are put out as soon as a range opens behind `last`.
unfoldable pub merge_from : BlockRange → List BlockRange → List BlockRange
merge_from last [] = last ∷ []
merge_from last (next ∷ rest) =
    let opened = last ∷ merge_from next rest in
    let joined = merge_from (extend last next) rest in
    if ltb (last.to_block + 1) next.from_block then opened else joined

-- The first range finds `merged` empty and is pushed.
unfoldable pub merge_sorted : List BlockRange → List BlockRange
unfolding merge_from
merge_sorted [] = []
merge_sorted (first ∷ rest) = merge_from first rest

unfoldable pub mark_checked_range : RangeTracker → BlockRange → Result RangeError RangeTracker
unfolding merge_sorted sort_by
mark_checked_range tracker range =
    if ltb range.to_block range.from_block
    then err invalid_checked_block_range
    else ok (record {
      checked_ranges = merge_sorted (sort_by starts_before (tracker.checked_ranges ++ range ∷ []));
    })

-- The `if` behind the loop of `findMissingRanges`.
abbrev pub remaining : ℕ → ℕ → List BlockRange
remaining to cursor =
    if leb cursor to then record { from_block = cursor; to_block = to } ∷ [] else []

-- The loop, with its `continue`, its `break` and its `cursor`.
unfoldable pub missing_from : ℕ → ℕ → List BlockRange → List BlockRange
missing_from to cursor [] = remaining to cursor
missing_from to cursor (checked ∷ ranges) =
    let skipped = missing_from to cursor ranges in
    let next_cursor : ℕ =
      if ltb cursor (checked.to_block + 1) then checked.to_block + 1 else cursor in
    let later = missing_from to next_cursor ranges in
    let gap : BlockRange = record { from_block = cursor; to_block = checked.from_block - 1 } in
    if ltb checked.to_block cursor
    then skipped
    else if ltb to checked.from_block
    then remaining to cursor
    else if ltb cursor checked.from_block
    then gap ∷ later
    else later

unfoldable pub find_missing_ranges : RangeTracker → BlockRange → List BlockRange
unfolding missing_from
find_missing_ranges tracker requested =
    missing_from requested.to_block requested.from_block tracker.checked_ranges

-- What a range and a tracker stand for: a set of blocks.
abbrev pub InRange : ℕ → BlockRange → Type 0
InRange b r = (r.from_block ≤ b) × (b ≤ r.to_block)

abbrev pub Covered : ℕ → List BlockRange → Type 0
Covered b ranges = Any (InRange b) ranges

-- A range holds a block.
abbrev pub IsRange : BlockRange → Type 0
IsRange r = r.from_block ≤ r.to_block

-- Between two ranges lies a block of neither.
abbrev pub Apart : BlockRange → BlockRange → Type 0
Apart r s = r.to_block + 1 < s.from_block

-- The form of a tracker: proper ranges in order, no two of them adjacent or overlapping.
pub record IsMerged (ranges : List BlockRange) : Type 0 where
  pub proper : All IsRange ranges
  pub apart : IsSorted Apart ranges
