-- ===== src/Indexer/MerklePaths/Examples.antt =====
-- Runs of the path index on a tree of two levels, with a hash that joins its two texts.
use nullark.Indexer.MerklePaths.Search.{InOrder, has_leaf_in_range_iff}
use nullark.Indexer.MerklePaths.Climb.{IsProof}
use nullark.Indexer.MerklePaths.Paths.{IsValid, get_merkle_path_for_commitment-IsProof}
use nullark.Indexer.MerklePaths.Insert.{
  create_merkle_path_index-IsValid, insert_indexed_commitment-IsValid,
}
use nullark.Indexer.MerklePaths.Accepts.{insert-get_merkle_path, insert_indexed_commitment-ok_iff}
use nullark.Prelude.{
  ℕ, ◌^◌, ◌<◌, ◌≤◌, ◌↔◌, Any, true, arith, ◌≡◌, refl, ok, [], ◌∷◌, none, some, ◌++◌,
}
use nullark.Prelude.Int.{pos}
use nullark.Prelude.Number.{int}
use nullark.Prelude.Text.{Text, text, to_lower_case, text_eq}
use nullark.Prelude.Map.{get, text_key, nat_key}
use nullark.Indexer.MerklePaths.{
  MerklePathIndex, create_merkle_path_index, insert_indexed_commitment,
  get_merkle_path_for_commitment, MerklePathResult, has_leaf_in_range, search_from,
}

abbrev join : Text → Text → Text
join left right = text "(" ++ (left ++ (right ++ text ")"))

abbrev empty : MerklePathIndex
empty = record {
  depth = 2;
  zero_hash = text "z";
  hash_pair = join;
  leaves_by_index = [];
  index_by_commitment = [];
  sorted_leaf_indexes = none;
  path_cache = [];
  max_path_cache_entries = 1;
}

abbrev filled : MerklePathIndex
filled = record empty {
  leaves_by_index = (2, text "B") ∷ (0, text "A") ∷ [];
  index_by_commitment = (text "b", 2) ∷ (text "a", 0) ∷ [];
}

empty_lem : create_merkle_path_index (int (pos 2)) (text "z") join (some 1) ≡ ok empty
unfolding create_merkle_path_index
empty_lem = refl

abbrev one : MerklePathIndex
one = record empty {
  leaves_by_index = (2, text "B") ∷ [];
  index_by_commitment = (text "b", 2) ∷ [];
}

one_lem :
    insert_indexed_commitment empty (record { commitment = text "B"; leaf_index = int (pos 2) })
    ≡ ok one
unfolding insert_indexed_commitment
one_lem = refl

filled_lem :
    insert_indexed_commitment one (record { commitment = text "A"; leaf_index = int (pos 0) })
    ≡ ok filled
unfolding insert_indexed_commitment
filled_lem = refl

abbrev path_of_a : MerklePathResult
path_of_a = record {
  commitment = text "A";
  leaf_index = 0;
  root = text "((Az)(Bz))";
  path_elements = text "z" ∷ text "(Bz)" ∷ [];
  path_indices = 0 ∷ 0 ∷ [];
}

path_lem :
    get_merkle_path_for_commitment filled (text "A")
    ≡ ok (
      record filled {
        sorted_leaf_indexes = some (0 ∷ 2 ∷ []);
        path_cache = (text "a", path_of_a) ∷ [];
      },
      path_of_a,
    )
unfolding get_merkle_path_for_commitment
path_lem = refl

empty-IsValid : IsValid empty
empty-IsValid =
    create_merkle_path_index-IsValid (int (pos 2)) (text "z") join (some 1) empty empty_lem

one-IsValid : IsValid one
one-IsValid =
    insert_indexed_commitment-IsValid empty one
      (record { commitment = text "B"; leaf_index = int (pos 2) }) empty-IsValid one_lem

filled-IsValid : IsValid filled
filled-IsValid =
    insert_indexed_commitment-IsValid one filled
      (record { commitment = text "A"; leaf_index = int (pos 0) }) one-IsValid filled_lem

a_is_indexed : get filled.index_by_commitment (to_lower_case (text "a")) ≡ some 0
unfolding get to_lower_case text_eq
a_is_indexed = refl

path_of_a-IsProof :
    (after : MerklePathIndex) × (r : MerklePathResult) × (get_merkle_path_for_commitment filled
        (text "a")
      ≡ ok (after, r))
    × IsValid after
    × (r.leaf_index ≡ 0)
    × (to_lower_case r.commitment ≡ to_lower_case (text "a"))
    × IsProof filled r
path_of_a-IsProof =
    get_merkle_path_for_commitment-IsProof filled (text "a") 0 filled-IsValid a_is_indexed
      (omega arith)

path_after_insertion :
    (last : MerklePathIndex) × (r : MerklePathResult) × (get_merkle_path_for_commitment filled
        (text "A")
      ≡ ok (last, r))
    × (r.leaf_index ≡ 0)
    × (get filled.leaves_by_index 0 ≡ some (text "A"))
    × IsProof filled r
path_after_insertion =
    insert-get_merkle_path one filled (text "A") 0 one-IsValid filled_lem (omega arith)

insertion-ok_iff :
    ((after : MerklePathIndex) × (insert_indexed_commitment one
          (record { commitment = text "A"; leaf_index = int (pos 0) })
        ≡ ok after))
    ↔ ((i : ℕ) × (int (pos 0) ≡ int (pos i))
        × (i < 2 ^ 2)
        × ((j : ℕ) → get one.index_by_commitment (to_lower_case (text "A")) ≡ some j → j ≡ i)
        × ((leaf : Text)
            → get one.leaves_by_index i ≡ some leaf
            → to_lower_case leaf ≡ to_lower_case (text "A")))
insertion-ok_iff = insert_indexed_commitment-ok_iff one (text "A") (int (pos 0))

two-InOrder : InOrder (0 ∷ 2 ∷ [])
two-InOrder = omega arith

upper_half_has_leaf :
    ((r : ℕ) × (search_from 2 (0 ∷ 2 ∷ []) 2 0 2 ≡ some r))
    × ((has_leaf_in_range (0 ∷ 2 ∷ []) 2 4 ≡ true) ↔ Any (λ i. (2 ≤ i) × (i < 4)) (0 ∷ 2 ∷ []))
upper_half_has_leaf = has_leaf_in_range_iff (0 ∷ 2 ∷ []) two-InOrder 2 4
