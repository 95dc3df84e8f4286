-- ===== src/Indexer/MerklePaths.antt =====
-- services/indexer/src/merklePaths.ts: the commitments by leaf index, and the Merkle path of one, with
-- its caches. The hash of two nodes is a field of the index, as in the code; the limit of the cache is
-- a natural number.
pub mod Search
pub mod Nodes
pub mod Climb
pub mod Cache
pub mod Paths
pub mod Insert
pub mod Accepts
mod Examples
use nullark.Prelude.{
  ℕ, zero, suc, ◌+◌, ◌-◌, ◌*◌, ◌/◌, ◌%◌, ◌^◌, Bool, true, false, not, ◌||◌, ◌&&◌, Option, none,
  some, List, [], ◌∷◌, ◌≡◌, ◌↔◌, arith, length, get_elem?, get_or, ltb, leb, ◌==◌, if◌then◌else◌,
  Result, ok, err, ◌>>=◌, ◌>>◌, throw_if,
}
use nullark.Prelude.Int.{ℤ, pos, negsuc}
use nullark.Prelude.Number.{Number, int, not_integer, is_safe_integer}
use nullark.Prelude.Text.{Text, text_eq, to_lower_case}
use nullark.Prelude.Sort.{sort_by}
use nullark.Prelude.Map.{Key, get, put, delete, keys, text_key, nat_key}

pub record IndexedCommitment : Type 0 where
  pub commitment : Text
  pub leaf_index : Number

-- The fixed text `source` is left out.
pub record MerklePathResult : Type 0 where
  pub commitment : Text
  pub leaf_index : ℕ
  pub root : Text
  pub path_elements : List Text
  pub path_indices : List ℕ

pub record MerklePathIndex : Type 0 where
  pub depth : ℕ
  pub zero_hash : Text
  pub hash_pair : Text → Text → Text
  pub leaves_by_index : List (ℕ × Text)
  pub index_by_commitment : List (Text × ℕ)
  pub sorted_leaf_indexes : Option (List ℕ)
  pub path_cache : List (Text × MerklePathResult)
  pub max_path_cache_entries : ℕ

pub data PathError : Type 0 where
  depth_not_positive depth_not_safe : PathError
  leaf_index_not_natural leaf_index_exceeds_capacity : PathError
  commitment_at_other_index index_has_other_commitment : PathError
  commitment_not_indexed : PathError

-- `Number.isInteger(depth) && depth > 0`
abbrev pub positive_integer : Number → Option ℕ
positive_integer (int (pos zero)) = none
positive_integer (int (pos (suc n))) = some (suc n)
positive_integer (int (negsuc n)) = none
positive_integer (not_integer _) = none

unfoldable pub create_merkle_path_index :
    Number → Text → (Text → Text → Text) → Option ℕ → Result PathError MerklePathIndex
unfolding is_safe_integer
create_merkle_path_index depth zero_hash hash_pair max_path_cache_entries =
    elim (positive_integer depth) [
      | none ↦ err depth_not_positive
      | some levels ↦
          throw_if (not (is_safe_integer (int (pos (2 ^ levels))))) depth_not_safe
          >> ok (record {
            depth = levels;
            zero_hash = zero_hash;
            hash_pair = hash_pair;
            leaves_by_index = [];
            index_by_commitment = [];
            sorted_leaf_indexes = none;
            path_cache = [];
            max_path_cache_entries = elim max_path_cache_entries [ none ↦ 256 | some n ↦ n ];
          })
    ]

-- The two conflicts: the commitment stands at another index, or the index has another commitment.
abbrev pub at_other_index : Option ℕ → ℕ → Bool
at_other_index none leaf_index = false
at_other_index (some existing) leaf_index = not (existing == leaf_index)

abbrev pub has_other_commitment : Option Text → Text → Bool
has_other_commitment none normalized = false
has_other_commitment (some existing) normalized = not (text_eq (to_lower_case existing) normalized)

-- `leafIndex < 0 || !Number.isInteger(leafIndex)`, by the number that passes.
abbrev pub natural : Number → Option ℕ
natural (int (pos n)) = some n
natural (int (negsuc n)) = none
natural (not_integer _) = none

unfoldable pub insert_at : MerklePathIndex → Text → ℕ → Result PathError MerklePathIndex
unfolding get put text_eq to_lower_case
insert_at index commitment leaf_index = do
  throw_if (leb (2 ^ index.depth) leaf_index) leaf_index_exceeds_capacity
  let normalized = to_lower_case commitment
  throw_if (at_other_index (get index.index_by_commitment normalized) leaf_index)
      commitment_at_other_index
  throw_if (has_other_commitment (get index.leaves_by_index leaf_index) normalized)
      index_has_other_commitment
  ok (record index {
    leaves_by_index = put index.leaves_by_index leaf_index commitment;
    index_by_commitment = put index.index_by_commitment normalized leaf_index;
    sorted_leaf_indexes = none;
    path_cache = [];
  })

unfoldable pub insert_indexed_commitment :
    MerklePathIndex → IndexedCommitment → Result PathError MerklePathIndex
unfolding insert_at
insert_indexed_commitment index commitment = elim (natural commitment.leaf_index) [
  | none ↦ err leaf_index_not_natural
  | some leaf_index ↦ insert_at index commitment.commitment leaf_index
]

unfoldable pub sorted_keys : List (ℕ × Text) → List ℕ
unfolding sort_by
sorted_keys leaves = sort_by ltb (keys leaves)

-- `index.sortedLeafIndexes ?? ...`
abbrev pub known_or_sorted : Option (List ℕ) → List (ℕ × Text) → List ℕ
known_or_sorted (some sorted) leaves = sorted
known_or_sorted none leaves = sorted_keys leaves

-- `while (lo < hi)`, with fuel; `none` where the fuel is out before the loop ends.
unfoldable pub search_from : ℕ → List ℕ → ℕ → ℕ → ℕ → Option ℕ
search_from zero leaf_indexes range_start lo hi = if ltb lo hi then none else some lo
search_from (suc fuel) leaf_indexes range_start lo hi =
    let mid = (lo + hi) / 2 in
    let upper = search_from fuel leaf_indexes range_start (mid + 1) hi in
    let lower = search_from fuel leaf_indexes range_start lo mid in
    if ltb lo hi
    then (if ltb (get_or leaf_indexes mid 0) range_start then upper else lower)
    else some lo

abbrev pub below : Option ℕ → ℕ → Bool
below none range_end = false
below (some first) range_end = ltb first range_end

-- What is read at the end of the search.
abbrev pub found_at : List ℕ → Option ℕ → Option ℕ
found_at leaf_indexes none = none
found_at leaf_indexes (some lo) = get_elem? leaf_indexes lo

-- The fuel is the number of indexes, which `hi - lo` is at most.
unfoldable pub has_leaf_in_range : List ℕ → ℕ → ℕ → Bool
unfolding search_from
has_leaf_in_range leaf_indexes range_start range_end =
    below
      (found_at leaf_indexes
        (search_from (length leaf_indexes) leaf_indexes range_start 0 (length leaf_indexes)))
      range_end

-- `zeroHashesByLevel[level]`
unfoldable pub zero_at : (Text → Text → Text) → Text → ℕ → Text
zero_at hash_pair zero_hash zero = zero_hash
zero_at hash_pair zero_hash (suc level) =
    let previous = zero_at hash_pair zero_hash level in hash_pair previous previous

-- The memoized nodes, by level and position, which the code joins to a text by a colon.
abbrev pub Nodes : Type 0
Nodes = List ((ℕ × ℕ) × Text)

abbrev pub place_same : ℕ × ℕ → ℕ × ℕ → Bool
place_same (a, b) (c, d) = a == c && b == d

pub place_same_iff : (p q : ℕ × ℕ) → (place_same p q ≡ true) ↔ (p ≡ q)
place_same_iff (a, b) (c, d) = ground arith

instance abbrev pub place_key : Key (ℕ × ℕ)
place_key = record { same = place_same; same_iff = place_same_iff }

abbrev pub or_zero : Option Text → Text → Text
or_zero none zero_hash = zero_hash
or_zero (some leaf) zero_hash = leaf

-- `cursor ^ 1`, which reads and returns 32 bits with a sign.
unfoldable pub xor_one : ℕ → ℤ
xor_one cursor =
    let word = cursor % 2 ^ 32 in
    let flipped = if word % 2 == 0 then word + 1 else word - 1 in
    if ltb flipped (2 ^ 31) then pos flipped else negsuc (2 ^ 32 - 1 - flipped)

module _ (index : MerklePathIndex) (leaf_indexes : List ℕ) where
  unfoldable pub get_node_hash : ℕ → ℕ → Nodes → Text × Nodes
  unfolding get put zero_at has_leaf_in_range
  get_node_hash zero position memo =
      (or_zero (get index.leaves_by_index position) index.zero_hash, memo)
  get_node_hash (suc level) position memo = elim (get memo (suc level, position)) [
    | some cached ↦ (cached, memo)
    | none ↦
        let width = 2 ^ suc level in
        let range_start = position * width in
        elim (has_leaf_in_range leaf_indexes range_start (range_start + width)) [
          | false ↦ (zero_at index.hash_pair index.zero_hash (suc level), memo)
          | true ↦
              let (left, with_left) = get_node_hash level (position * 2) memo in
              let (right, with_right) = get_node_hash level (position * 2 + 1) with_left in
              let combined = index.hash_pair left right in
              (combined, put with_right (suc level, position) combined)
        ]
  ]

  -- A position below 0 has no leaf under it.
  unfoldable pub get_node_hash_at : ℕ → ℤ → Nodes → Text × Nodes
  unfolding get_node_hash zero_at
  get_node_hash_at level (pos position) memo = get_node_hash level position memo
  get_node_hash_at level (negsuc position) memo =
      (zero_at index.hash_pair index.zero_hash level, memo)

  -- The loop over the levels, with the rounds that are left. What a round pushes stands before what the
  -- later rounds push.
  unfoldable pub path_from : ℕ → ℕ → ℕ → Nodes → List Text × List ℕ × Nodes
  unfolding get_node_hash_at xor_one
  path_from zero level cursor memo = ([], [], memo)
  path_from (suc rounds) level cursor memo =
      let (sibling, with_sibling) = get_node_hash_at level (xor_one cursor) memo in
      let (elements, indices, with_rest) = path_from rounds (level + 1) (cursor / 2) with_sibling in
      (sibling ∷ elements, cursor % 2 ∷ indices, with_rest)

  unfoldable pub compute_path : Text → ℕ → MerklePathResult
  unfolding path_from get_node_hash
  compute_path commitment leaf_index =
      let (path_elements, path_indices, memo) = path_from index.depth 0 leaf_index [] in
      record {
        commitment = commitment;
        leaf_index = leaf_index;
        root = (get_node_hash index.depth 0 memo).0;
        path_elements = path_elements;
        path_indices = path_indices;
      }

-- `while (size > max)`: the oldest entry goes. The fuel is the number of entries.
unfoldable pub evict : ℕ → ℕ → List (Text × MerklePathResult) → List (Text × MerklePathResult)
unfolding delete text_eq
evict zero max cache = cache
evict (suc fuel) max [] = []
evict (suc fuel) max ((oldest, r) ∷ cache) =
    let smaller = evict fuel max (delete ((oldest, r) ∷ cache) oldest) in
    if ltb max (length ((oldest, r) ∷ cache)) then smaller else (oldest, r) ∷ cache

unfoldable pub cache_path :
    ℕ → Text → MerklePathResult → List (Text × MerklePathResult) → List (Text × MerklePathResult)
unfolding put evict text_eq
cache_path max key r cache =
    let written = put cache key r in if ltb 0 max then evict (length written) max written else cache

unfoldable pub answer :
    MerklePathIndex → Text → Text → ℕ → Option MerklePathResult → MerklePathIndex × MerklePathResult
unfolding put delete text_eq cache_path compute_path sorted_keys
answer index commitment key leaf_index (some cached) =
    (record index { path_cache = put (delete index.path_cache key) key cached }, cached)
answer index commitment key leaf_index none =
    let leaf_indexes = known_or_sorted index.sorted_leaf_indexes index.leaves_by_index in
    let r = compute_path index leaf_indexes commitment leaf_index in
    (
      record index {
        sorted_leaf_indexes = some leaf_indexes;
        path_cache = cache_path index.max_path_cache_entries key r index.path_cache;
      },
      r,
    )

unfoldable pub get_merkle_path_for_commitment :
    MerklePathIndex → Text → Result PathError (MerklePathIndex × MerklePathResult)
unfolding get text_eq to_lower_case answer
get_merkle_path_for_commitment index commitment =
    let key = to_lower_case commitment in
    elim (get index.index_by_commitment key) [
      | none ↦ err commitment_not_indexed
      | some leaf_index ↦ ok (answer index commitment key leaf_index (get index.path_cache key))
    ]
