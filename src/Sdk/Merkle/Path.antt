-- ===== src/Sdk/Merkle/Path.antt =====
-- The Merkle paths of packages/sdk/src/merkle/reconstruct.ts: the loop that collects the siblings of a
-- leaf, and `verifyMerklePath`.
pub mod Siblings
mod Examples
use nullark.Prelude.{
  ℕ, zero, suc, ◌+◌, ◌-◌, ◌/◌, ◌%◌, ◌^◌, Bool, not, ◌&&◌, List, [], ◌∷◌, ◌==◌, ltb, if◌then◌else◌,
  Result, ok, err, ◌>>=◌, ◌>>◌, throw_if, length, get_or,
}
use nullark.Prelude.Int.{ℤ, pos, negsuc}
use nullark.Prelude.Text.{Text}
use nullark.Sdk.Merkle.{
  Layer, MerkleError, path_length_mismatch, path_index_not_bit, commitment_label, root_label,
  path_element_label, path_root_label, sibling_label, assert_field_bigint, get_node, hash_pair,
  build_next_sparse_merkle_layer,
}
use nullark.Sdk.Merkle.Chain.{big_int, assert_field_bytes32, to_bytes32, same_hex}

-- The arrays that the loop fills, and the layer that it ends with.
pub record PathLevels : Type 0 where
  pub path_elements : List Text
  pub path_indices : List ℕ
  pub top : Layer

-- `cursor ^ 1`, which reads and returns 32 bits with a sign.
unfoldable pub sibling_of : ℕ → ℤ
sibling_of cursor =
    let word = cursor % 2 ^ 32 in
    let flipped = if word % 2 == 0 then word + 1 else word - 1 in
    if ltb flipped (2 ^ 31) then pos flipped else negsuc (2 ^ 32 - 1 - flipped)

-- `layer.get(index) ?? zeroHash`: a layer has no negative index.
abbrev pub get_node_at : Layer → ℤ → ℕ → ℕ
get_node_at layer (pos index) zero_hash = get_node layer index zero_hash
get_node_at layer (negsuc n) zero_hash = zero_hash

module _ (hash : List ℕ → ℤ) where
  -- The loop of `reconstructMerklePathFromRootAcceptedLogs`, from `level`, with the rounds that are
  -- left. What a round pushes stands before what the later rounds push.
  unfoldable pub path_levels : ℕ → ℕ → List ℕ → Layer → ℕ → Result MerkleError PathLevels
  unfolding assert_field_bigint get_node to_bytes32 build_next_sparse_merkle_layer sibling_of
  path_levels zero level zero_hashes layer cursor =
      ok (record { path_elements = []; path_indices = []; top = layer })
  path_levels (suc rounds) level zero_hashes layer cursor = do
    let zero_hash = get_or zero_hashes level 0
    sibling ←
        assert_field_bigint (pos (get_node_at layer (sibling_of cursor) zero_hash)) sibling_label
    next ← build_next_sparse_merkle_layer hash layer zero_hash
    rest ← path_levels rounds (level + 1) zero_hashes next (cursor / 2)
    ok (record {
      path_elements = to_bytes32 sibling ∷ rest.path_elements;
      path_indices = cursor % 2 ∷ rest.path_indices;
      top = rest.top;
    })

  -- The loop of `verifyMerklePath`. An index that is missing is no bit.
  unfoldable pub path_from : ℕ → List Text → List ℕ → Result MerkleError ℕ
  unfolding assert_field_bytes32 big_int hash_pair
  path_from computed [] indices = ok computed
  path_from computed (element ∷ elements) [] = do
    sibling ← assert_field_bytes32 element path_element_label
    err path_index_not_bit
  path_from computed (element ∷ elements) (path_index ∷ indices) = do
    sibling ← assert_field_bytes32 element path_element_label
    throw_if (not (path_index == 0) && not (path_index == 1)) path_index_not_bit
    next ←
        if path_index == 0
        then hash_pair hash path_root_label computed (big_int sibling)
        else hash_pair hash path_root_label (big_int sibling) computed
    path_from next elements indices

  unfoldable pub verify_merkle_path : Text → Text → List Text → List ℕ → Result MerkleError Bool
  unfolding assert_field_bytes32 big_int path_from same_hex to_bytes32
  verify_merkle_path commitment root path_elements path_indices = do
    leaf ← assert_field_bytes32 commitment commitment_label
    expected_root ← assert_field_bytes32 root root_label
    throw_if (not (length path_elements == length path_indices)) path_length_mismatch
    computed ← path_from (big_int leaf) path_elements path_indices
    ok (same_hex (to_bytes32 computed) expected_root)
