-- ===== src/Sdk/Merkle.antt =====
-- packages/sdk/src/merkle/reconstruct.ts: the Merkle tree behind the `RootAccepted` logs. A field
-- element is a native number; the hash is a parameter, as in the code.
pub mod Tree
pub mod Insert
pub mod Append
pub mod Layer
pub mod Chain
pub mod Path
mod Examples
use nullark.Prelude.{
  ℕ, zero, suc, ◌+◌, ◌*◌, ◌/◌, ◌%◌, ◌^◌, ◌<◌, ◌≡◌, Bool, true, false, Option, none, some, List, [],
  ◌∷◌, ◌++◌, ltb, ◌==◌, if◌then◌else◌, Result, ok, err, ◌>>=◌, length, get_or, set, any_of,
}
use nullark.Prelude.Int.{ℤ, pos, negsuc}

-- BN254_SCALAR_FIELD
abbrev pub bn254_scalar_field : ℕ
bn254_scalar_field = 21888242871839275222246405745257275088548364400416034343698204186575808495617

-- What a message of `assertFieldBigint` or `assertFieldBytes32` begins with.
pub data FieldLabel : Type 0 where
  zero_hash_label computed_root_label parent_label : FieldLabel
  root_label previous_root_label inserted_commitment_label : FieldLabel
  commitment_label path_element_label path_root_label sibling_label : FieldLabel

pub data MerkleError : Type 0 where
  not_a_field_element : FieldLabel → MerkleError
  not_a_field_bytes32 : FieldLabel → MerkleError
  initialization_root_mismatch : MerkleError
  previous_root_mismatch : MerkleError
  capacity_exceeded : MerkleError
  root_mismatch : MerkleError
  path_length_mismatch : MerkleError
  path_index_not_bit : MerkleError

unfoldable pub assert_field_bigint : ℤ → FieldLabel → Result MerkleError ℕ
assert_field_bigint (pos value) label =
    if ltb value bn254_scalar_field then ok value else err (not_a_field_element label)
assert_field_bigint (negsuc value) label = err (not_a_field_element label)

-- A `Map<number, bigint>`, in the order of insertion.
abbrev pub Layer : Type 0
Layer = List (ℕ × ℕ)

-- `layer.get(index) ?? fallback`
unfoldable pub get_node : Layer → ℕ → ℕ → ℕ
get_node [] index fallback = fallback
get_node ((key, value) ∷ layer) index fallback =
    if key == index then value else get_node layer index fallback

-- `set.has(index)`, `set.add(index)`
unfoldable pub has_index : List ℕ → ℕ → Bool
has_index [] index = false
has_index (x ∷ xs) index = if x == index then true else has_index xs index

unfoldable pub add_index : List ℕ → ℕ → List ℕ
unfolding has_index
add_index xs index = if has_index xs index then xs else xs ++ index ∷ []

-- The first loop of `buildNextSparseMerkleLayer`.
unfoldable pub parent_indexes_from : List ℕ → Layer → List ℕ
unfolding add_index
parent_indexes_from parents [] = parents
parent_indexes_from parents ((index, value) ∷ layer) =
    parent_indexes_from (add_index parents (index / 2)) layer

-- `FieldHash`
module _ (hash : List ℕ → ℤ) where
  unfoldable pub hash_pair : FieldLabel → ℕ → ℕ → Result MerkleError ℕ
  unfolding assert_field_bigint
  hash_pair label left right = assert_field_bigint (hash (left ∷ right ∷ [])) label

  -- The loop of `buildMerkleZeroHashes`, from `level`, with the rounds that are left.
  unfoldable pub zero_hashes_from : ℕ → ℕ → List ℕ → Result MerkleError (List ℕ)
  unfolding hash_pair
  zero_hashes_from zero level zero_hashes = ok zero_hashes
  zero_hashes_from (suc rounds) level zero_hashes = do
    let zero_hash = get_or zero_hashes level 0
    next ← hash_pair zero_hash_label zero_hash zero_hash
    zero_hashes_from rounds (level + 1) (zero_hashes ++ next ∷ [])

  unfoldable pub build_merkle_zero_hashes : ℕ → Result MerkleError (List ℕ)
  unfolding zero_hashes_from
  build_merkle_zero_hashes depth = zero_hashes_from depth 0 (0 ∷ [])

  -- The loop of `insertLeafAndComputeRoot`. It writes `filledSubtrees`, which is returned beside the
  -- root; the list has `depth` places, so no write is out of range.
  unfoldable pub insert_from : ℕ → ℕ → ℕ → List ℕ → List ℕ → ℕ → Result MerkleError (ℕ × List ℕ)
  unfolding hash_pair
  insert_from zero level leaf_index zero_hashes filled_subtrees current =
      ok (current, filled_subtrees)
  insert_from (suc rounds) level leaf_index zero_hashes filled_subtrees current = do
    let zero_hash = get_or zero_hashes level 0
    let is_left = (leaf_index / 2 ^ level) % 2 == 0
    next ←
        if is_left
        then hash_pair computed_root_label current zero_hash
        else hash_pair computed_root_label (get_or filled_subtrees level zero_hash) current
    insert_from rounds (level + 1) leaf_index zero_hashes
        (if is_left then set filled_subtrees level current else filled_subtrees) next

  unfoldable pub insert_leaf_and_compute_root :
      ℕ → ℕ → ℕ → List ℕ → List ℕ → Result MerkleError (ℕ × List ℕ)
  unfolding insert_from
  insert_leaf_and_compute_root leaf leaf_index depth zero_hashes filled_subtrees =
      insert_from depth 0 leaf_index zero_hashes filled_subtrees leaf

  -- The second loop: each parent is set once, behind those before it.
  unfoldable pub next_layer_from : Layer → ℕ → List ℕ → Result MerkleError Layer
  unfolding hash_pair get_node
  next_layer_from layer zero_hash [] = ok []
  next_layer_from layer zero_hash (parent ∷ parents) = do
    value ←
        hash_pair parent_label (get_node layer (parent * 2) zero_hash)
          (get_node layer (parent * 2 + 1) zero_hash)
    rest ← next_layer_from layer zero_hash parents
    ok ((parent, value) ∷ rest)

  unfoldable pub build_next_sparse_merkle_layer : Layer → ℕ → Result MerkleError Layer
  unfolding parent_indexes_from next_layer_from
  build_next_sparse_merkle_layer layer zero_hash =
      next_layer_from layer zero_hash (parent_indexes_from [] layer)
