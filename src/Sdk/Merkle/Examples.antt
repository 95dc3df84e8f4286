-- ===== src/Sdk/Merkle/Examples.antt =====
-- Runs on a tree of depth two, under a small hash.
use nullark.Prelude.{
  ℕ, zero, suc, ◌+◌, ◌-◌, ◌*◌, ◌%◌, ◌≤◌, ◌<◌, ◌≡◌, refl, List, [], ◌∷◌, get_or, arith, ok,
}
use nullark.Prelude.Int.{ℤ, pos}
use nullark.Sdk.Merkle.{
  Layer, get_node, build_merkle_zero_hashes, insert_leaf_and_compute_root,
  build_next_sparse_merkle_layer,
}
use nullark.Sdk.Merkle.Tree.{IsFieldHash, tree_node, zero_node, ancestor}
use nullark.Sdk.Merkle.Insert.{IsFilled}
use nullark.Sdk.Merkle.Append.{
  leaf_at, tree_root, IsZeros, build_merkle_zero_hashes-IsZeros,
  insert_leaf_and_compute_root-tree_root,
}
use nullark.Sdk.Merkle.Layer.{Stands, build_next_sparse_merkle_layer-Stands}

abbrev pub small_node : ℕ → ℕ → ℕ
small_node left right = (left * 3 + right * 5 + 7) % 97

abbrev pub small_hash : List ℕ → ℤ
small_hash (left ∷ right ∷ []) = pos (small_node left right)
small_hash _ = pos 0

pub small_hash-IsFieldHash : IsFieldHash small_hash small_node
small_hash-IsFieldHash = record {
  at_pair = λ left right. refl;
  in_field = λ left right. omega arith;
}

small_zeros : build_merkle_zero_hashes small_hash 2 ≡ ok (0 ∷ 7 ∷ 63 ∷ [])
unfolding build_merkle_zero_hashes
small_zeros = refl

zero_at : (level : ℕ) → level ≤ 2 → get_or (0 ∷ 7 ∷ 63 ∷ []) level 0 ≡ zero_node small_node level
unfolding zero_node
zero_at zero h = refl
zero_at (suc zero) h = refl
zero_at (suc (suc zero)) h = refl
zero_at (suc (suc (suc level))) h = absurd (omega arith)

pub three_levels-IsZeros : IsZeros small_hash small_node small_hash-IsFieldHash 2 (0 ∷ 7 ∷ 63 ∷ [])
three_levels-IsZeros = (refl, λ level h. zero_at level h)

filled_at :
    (level : ℕ)
    → level < 2
    → (fallback : ℕ) → ancestor 1 level % 2 ≡ 1
    → get_or (11 ∷ 0 ∷ []) level fallback
      ≡ tree_node small_node (leaf_at (11 ∷ [])) level (ancestor 1 level - 1)
unfolding ancestor tree_node
filled_at zero h fallback odd = refl
filled_at (suc zero) h fallback odd = absurd (omega arith)
filled_at (suc (suc level)) h fallback odd = absurd (omega arith)

one_leaf-IsFilled : IsFilled small_node (leaf_at (11 ∷ [])) 1 2 (11 ∷ 0 ∷ [])
one_leaf-IsFilled = record {
  size = refl;
  at_level = λ level h fallback odd. filled_at level h fallback odd;
}

second_leaf_root :
    (after : List ℕ) × (insert_leaf_and_compute_root small_hash 13 1 2
        (0 ∷ 7 ∷ 63 ∷ [])
        (11 ∷ 0 ∷ [])
      ≡ ok (tree_root small_node 2 (11 ∷ 13 ∷ []), after))
    × IsFilled small_node (leaf_at (11 ∷ 13 ∷ [])) 2 2 after
second_leaf_root =
    insert_leaf_and_compute_root-tree_root small_hash small_node small_hash-IsFieldHash 2 13
      (11 ∷ []) (0 ∷ 7 ∷ 63 ∷ []) (11 ∷ 0 ∷ []) (omega arith) three_levels-IsZeros one_leaf-IsFilled

depth_three-IsZeros :
    (zeros : List ℕ) × (build_merkle_zero_hashes small_hash 3 ≡ ok zeros)
    × IsZeros small_hash small_node small_hash-IsFieldHash 3 zeros
depth_three-IsZeros =
    build_merkle_zero_hashes-IsZeros small_hash small_node small_hash-IsFieldHash 3

abbrev pub two_leaves : Layer
two_leaves = (0, 11) ∷ (1, 13) ∷ []

two_leaves-Stands : Stands two_leaves 0 (tree_node small_node (leaf_at (11 ∷ 13 ∷ [])) 0)
unfolding tree_node get_node
two_leaves-Stands zero = refl
two_leaves-Stands (suc zero) = refl
two_leaves-Stands (suc (suc position)) = ground arith

zero_leaf : 0 ≡ zero_node small_node 0
unfolding zero_node
zero_leaf = refl

layer_above_two_leaves :
    (next : Layer) × (build_next_sparse_merkle_layer small_hash two_leaves 0 ≡ ok next)
    × Stands next (zero_node small_node 1) (tree_node small_node (leaf_at (11 ∷ 13 ∷ [])) 1)
layer_above_two_leaves =
    build_next_sparse_merkle_layer-Stands small_hash small_node small_hash-IsFieldHash two_leaves 0
      (leaf_at (11 ∷ 13 ∷ [])) 0 zero_leaf two_leaves-Stands
