-- ===== src/Sdk/Merkle/Path/Siblings.antt =====
-- The siblings that are collected on the way up lead back to the root.
use mathlib.Core.Path.{subst}
use nullark.Prelude.{
  ℕ, zero, suc, ◌+◌, ◌-◌, ◌*◌, ◌/◌, ◌%◌, ◌^◌, ◌<◌, ◌≡◌, refl, ap, sym, ◌∙◌, true, false, inl, inr,
  List, [], ◌∷◌, arith, ltb, ◌==◌, if◌then◌else◌, Bool-cases, ok, length, get_or,
}
use nullark.Prelude.Int.{ℤ, pos}
use nullark.Prelude.Text.{Text, text_eq_refl, to_lower_case}
use nullark.Sdk.Merkle.{
  Layer, bn254_scalar_field, FieldLabel, path_element_label, commitment_label, root_label,
  path_root_label, sibling_label, assert_field_bigint,
}
use native.Mathlib.Nat.{div-eq_of_lt}
use nullark.Sdk.Merkle.Tree.{
  IsFieldHash, hash_pair-node, ancestor, ancestor-div, tree_node, zero_node,
}
use nullark.Sdk.Merkle.Append.{IsZeros}
use nullark.Sdk.Merkle.Layer.{Stands, build_next_sparse_merkle_layer-Stands}
use nullark.Sdk.Merkle.Chain.{to_bytes32, same_hex}
use nullark.Sdk.Merkle.Chain.Hex.{big_int-to_bytes32, assert_field_bytes32-to_bytes32}
use nullark.Sdk.Merkle.Path.{PathLevels, sibling_of, path_levels, path_from, verify_merkle_path}

-- The other child of the same parent, which the code finds by `cursor ^ 1` in 31 bits.
unfoldable other_child : ℕ → ℕ
other_child cursor = if cursor % 2 == 0 then cursor + 1 else cursor - 1

sibling_of-small : (cursor : ℕ) → cursor < 2 ^ 31 → sibling_of cursor ≡ pos (other_child cursor)
unfolding sibling_of other_child
sibling_of-small cursor h =
    let word : cursor % 2 ^ 32 ≡ cursor = omega arith in
    rw word (elim (Bool-cases ((cursor % 2) == 0)) [
      | inl even ↦
          let below : ltb (cursor + 1) (2 ^ 31) ≡ true = ground (arith, even, h) in
          rw (even, below) refl
      | inr odd ↦
          let below : ltb (cursor - 1) (2 ^ 31) ≡ true = ground (arith, odd, h) in
          rw (odd, below) refl
    ])

assert_field_bigint-pos :
    (v : ℕ) (label : FieldLabel) → v < bn254_scalar_field → assert_field_bigint (pos v) label ≡ ok v
unfolding assert_field_bigint
assert_field_bigint-pos v label h = ground (arith, h)

ancestor-half : (cursor rounds : ℕ) → ancestor (cursor / 2) rounds ≡ ancestor cursor (suc rounds)
unfolding ancestor
ancestor-half cursor zero = refl
ancestor-half cursor (suc rounds) = ap (λ a. a / 2) (ancestor-half cursor rounds)

module _ (hash : List ℕ → ℤ) (node : ℕ → ℕ → ℕ) (field_hash : IsFieldHash hash node) (leaf : ℕ → ℕ)
    (in_field : (i : ℕ) → leaf i < bn254_scalar_field) where
  abbrev tree : ℕ → ℕ → ℕ
  tree = tree_node node leaf

  tree-in_field : (level position : ℕ) → tree level position < bn254_scalar_field
  unfolding tree_node
  tree-in_field zero position = in_field position
  tree-in_field (suc level) position = field_hash.in_field _ _

  -- One step up: the two children of the parent, in order.
  left_child :
      (level cursor : ℕ)
      → ((cursor % 2) == 0) ≡ true
      → node (tree level cursor) (tree level (other_child cursor)) ≡ tree (suc level) (cursor / 2)
  unfolding tree_node other_child
  left_child level cursor even =
      let here : cursor / 2 * 2 ≡ cursor = ground (arith, even) in rw (even, here) refl

  right_child :
      (level cursor : ℕ)
      → ((cursor % 2) == 0) ≡ false
      → node (tree level (other_child cursor)) (tree level cursor) ≡ tree (suc level) (cursor / 2)
  unfolding tree_node other_child
  right_child level cursor odd =
      let one : cursor % 2 ≡ 1 = ground (arith, odd) in
      let left : cursor / 2 * 2 ≡ cursor - 1 = omega (arith, one) in
      let right : cursor / 2 * 2 + 1 ≡ cursor = omega (arith, one) in rw (odd, right, left) refl

  path_from-step :
      (level cursor : ℕ) (elements : List Text) (indices : List ℕ)
      → path_from hash
          (tree level cursor)
          (to_bytes32 (tree level (other_child cursor)) ∷ elements)
          (cursor % 2 ∷ indices)
        ≡ path_from hash (tree (suc level) (cursor / 2)) elements indices
  unfolding path_from
  path_from-step level cursor elements indices =
      let sibling = tree level (other_child cursor) in
      let accepted =
        assert_field_bytes32-to_bytes32 sibling path_element_label
          (tree-in_field level (other_child cursor)) in
      elim (Bool-cases ((cursor % 2) == 0)) [
        | inl even ↦
            rw
              (
                accepted,
                even,
                big_int-to_bytes32 sibling,
                hash_pair-node hash node path_root_label (tree level cursor) sibling field_hash,
                left_child level cursor even,
              )
              refl
        | inr odd ↦
            let bit : ((cursor % 2) == 1) ≡ true = ground (arith, odd) in
            rw
              (
                accepted,
                odd,
                bit,
                big_int-to_bytes32 sibling,
                hash_pair-node hash node path_root_label sibling (tree level cursor) field_hash,
                right_child level cursor odd,
              )
              refl
      ]

  -- What the collected path says of the tree: its siblings lead from a node to its ancestor, and the
  -- last layer stands for the ancestor's level.
  record LeadsUp (rounds level cursor : ℕ) (path : PathLevels) : Type 0 where
    leads :
        path_from hash (tree level cursor) path.path_elements path.path_indices
        ≡ ok (tree (level + rounds) (ancestor cursor rounds))
    paired : length path.path_elements ≡ length path.path_indices
    stands : Stands path.top (zero_node node (level + rounds)) (tree (level + rounds))

  no_rounds-LeadsUp :
      (level cursor : ℕ) (layer : Layer)
      → Stands layer (zero_node node level) (tree level)
      → LeadsUp 0 level cursor (record { path_elements = []; path_indices = []; top = layer })
  unfolding path_from ancestor
  no_rounds-LeadsUp level cursor layer s =
      let same : level + 0 ≡ level = omega arith in
      record { leads = rw same refl; paired = refl; stands = rw same s }

  round-LeadsUp :
      (rounds level cursor : ℕ) (rest : PathLevels)
      → LeadsUp rounds (suc level) (cursor / 2) rest
      → LeadsUp (suc rounds) level cursor (record {
        path_elements = to_bytes32 (tree level (other_child cursor)) ∷ rest.path_elements;
        path_indices = cursor % 2 ∷ rest.path_indices;
        top = rest.top;
      })
  round-LeadsUp rounds level cursor rest l =
      let same : suc level + rounds ≡ level + suc rounds = omega arith in
      record {
        leads =
            path_from-step level cursor rest.path_elements rest.path_indices
            ∙ l.leads
            ∙ ap ok (
                ap (tree (suc level + rounds)) (ancestor-half cursor rounds)
                ∙ ap (λ n. tree n (ancestor cursor (suc rounds))) same);
        paired = ap suc l.paired;
        stands = subst (λ n. Stands rest.top (zero_node node n) (tree n)) same l.stands;
      }

  path_levels-LeadsUp :
      (rounds level : ℕ) (zeros : List ℕ) (layer : Layer) (cursor : ℕ)
      → cursor < 2 ^ 31
      → ((l : ℕ) → l < level + rounds → get_or zeros l 0 ≡ zero_node node l)
      → Stands layer (zero_node node level) (tree level)
      → (path : PathLevels) × (path_levels hash rounds level zeros layer cursor ≡ ok path)
        × LeadsUp rounds level cursor path
  unfolding path_levels
  path_levels-LeadsUp zero level zeros layer cursor small z s =
      (_, refl, no_rounds-LeadsUp level cursor layer s)
  path_levels-LeadsUp (suc rounds) level zeros layer cursor small z s =
      let at = z level (omega arith) in
      let above : level + 1 ≡ suc level = omega arith in
      let sibling =
        assert_field_bigint-pos (tree level (other_child cursor)) sibling_label
          (tree-in_field level (other_child cursor)) in
      let (next, is_next, next_stands) =
        build_next_sparse_merkle_layer-Stands hash node field_hash layer (zero_node node level) leaf
          level refl s in
      let (rest, is_rest, up) =
        path_levels-LeadsUp rounds (suc level) zeros next (cursor / 2) (omega arith)
          (λ l below. z l (omega (arith, below))) next_stands in
      (
        _,
        rw
            (
              at,
              sibling_of-small cursor small,
              s (other_child cursor),
              sibling,
              is_next,
              above,
              is_rest,
            )
            refl,
        round-LeadsUp rounds level cursor rest up,
      )

  same_hex_refl : (a : Text) → same_hex a a ≡ true
  unfolding same_hex
  same_hex_refl a = text_eq_refl (to_lower_case a)

  -- Under a hash that maps pairs into the field, with the zero hashes of the depth and where a layer
  -- stands for leaves in the field, the path of a leaf within the tree whose index
  -- fits in 31 bits is collected, and is accepted for the leaf and the root of the tree.
  pub verify_merkle_path-path_levels :
      (depth : ℕ) (zeros : List ℕ) (layer : Layer) (cursor : ℕ)
      → cursor < 2 ^ depth
      → cursor < 2 ^ 31
      → IsZeros hash node field_hash depth zeros
      → Stands layer 0 leaf
      → (path : PathLevels) × (path_levels hash depth 0 zeros layer cursor ≡ ok path)
        × (verify_merkle_path hash
              (to_bytes32 (leaf cursor))
              (to_bytes32 (tree_node node leaf depth 0))
              path.path_elements
              path.path_indices
            ≡ ok true)
  unfolding verify_merkle_path tree_node zero_node
  verify_merkle_path-path_levels depth zeros layer cursor inside small z s =
      let (path, is_path, up) =
        path_levels-LeadsUp depth 0 zeros layer cursor small
          (λ l below. z.1 l (omega (arith, below))) s in
      let top : ancestor cursor depth ≡ 0 = sym (ancestor-div cursor depth) ∙ div-eq_of_lt inside in
      let none_above : 0 + depth ≡ depth = omega arith in
      let leads = rw (none_above, top) at up.leads in
      let leaf_ok =
        assert_field_bytes32-to_bytes32 (leaf cursor) commitment_label (in_field cursor) in
      let root_ok =
        assert_field_bytes32-to_bytes32 (tree depth 0) root_label (tree-in_field depth 0) in
      let paired : (length path.path_elements == length path.path_indices) ≡ true =
        ground (arith, up.paired) in
      (
        path,
        is_path,
        rw
            (
              leaf_ok,
              root_ok,
              paired,
              big_int-to_bytes32 (leaf cursor),
              leads,
              same_hex_refl (to_bytes32 (tree depth 0)),
            )
            refl,
      )
