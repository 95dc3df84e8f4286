-- ===== src/Sdk/Merkle/Path/Examples.antt =====
-- A path in a tree of depth two.
use nullark.Prelude.{ℕ, zero, suc, ◌<◌, ◌≡◌, refl, true, false, [], ◌∷◌, arith, ok, err}
use nullark.Sdk.Merkle.{bn254_scalar_field, get_node, path_index_not_bit}
use nullark.Sdk.Merkle.Tree.{tree_node}
use nullark.Sdk.Merkle.Append.{leaf_at}
use nullark.Sdk.Merkle.Layer.{Stands}
use nullark.Sdk.Merkle.Chain.{to_bytes32}
use nullark.Sdk.Merkle.Path.{PathLevels, path_levels, verify_merkle_path}
use nullark.Sdk.Merkle.Path.Siblings.{verify_merkle_path-path_levels}
use nullark.Sdk.Merkle.Examples.{
  small_node, small_hash, small_hash-IsFieldHash, three_levels-IsZeros, two_leaves,
}

-- The leaves are 11 and 13; the parent of the two empty leaves is 7.
abbrev path_of_13 : PathLevels
path_of_13 = record {
  path_elements = to_bytes32 11 ∷ to_bytes32 7 ∷ [];
  path_indices = 1 ∷ 0 ∷ [];
  top = (0, 66) ∷ [];
}

collected : path_levels small_hash 2 0 (0 ∷ 7 ∷ 63 ∷ []) two_leaves 1 ≡ ok path_of_13
unfolding path_levels to_bytes32
collected = refl

wrong_leaf :
    verify_merkle_path small_hash
      (to_bytes32 14)
      (to_bytes32 66)
      path_of_13.path_elements
      path_of_13.path_indices
    ≡ ok false
unfolding verify_merkle_path to_bytes32
wrong_leaf = refl

no_bit :
    verify_merkle_path small_hash
      (to_bytes32 13)
      (to_bytes32 66)
      path_of_13.path_elements
      (2 ∷ 0 ∷ [])
    ≡ err path_index_not_bit
unfolding verify_merkle_path to_bytes32
no_bit = refl

in_field : (i : ℕ) → leaf_at (11 ∷ 13 ∷ []) i < bn254_scalar_field
in_field zero = omega arith
in_field (suc zero) = omega arith
in_field (suc (suc i)) = omega arith

leaves-Stands : Stands two_leaves 0 (leaf_at (11 ∷ 13 ∷ []))
unfolding get_node
leaves-Stands zero = refl
leaves-Stands (suc zero) = refl
leaves-Stands (suc (suc position)) = ground arith

path_of_13_accepted :
    (path : PathLevels) × (path_levels small_hash 2 0 (0 ∷ 7 ∷ 63 ∷ []) two_leaves 1 ≡ ok path)
    × (verify_merkle_path small_hash
          (to_bytes32 13)
          (to_bytes32 (tree_node small_node (leaf_at (11 ∷ 13 ∷ [])) 2 0))
          path.path_elements
          path.path_indices
        ≡ ok true)
path_of_13_accepted =
    verify_merkle_path-path_levels small_hash small_node small_hash-IsFieldHash
      (leaf_at (11 ∷ 13 ∷ [])) in_field 2 (0 ∷ 7 ∷ 63 ∷ []) two_leaves 1 (omega arith) (omega arith)
      three_levels-IsZeros leaves-Stands
