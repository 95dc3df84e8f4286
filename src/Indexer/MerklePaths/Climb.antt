-- ===== src/Indexer/MerklePaths/Climb.antt =====
-- services/indexer/src/merklePaths.ts: the loop over the levels. The path of a leaf leads to the root.
use native.Mathlib.Nat.{add-zero, pow-suc}
use nullark.Prelude.{
  ℕ, zero, suc, ◌+◌, ◌-◌, ◌*◌, ◌/◌, ◌%◌, ◌^◌, ◌<◌, ◌≡◌, refl, sym, ap, ◌∙◌, inl, inr, List, [], ◌∷◌,
  arith, Bool-cases, if◌then◌else◌, ◌==◌, length,
}
use nullark.Prelude.Int.{pos}
use nullark.Prelude.Text.{Text}
use nullark.Prelude.Map.{text_key, nat_key}
use nullark.Indexer.MerklePaths.{
  MerklePathIndex, MerklePathResult, Nodes, get_node_hash_at, xor_one, path_from, compute_path,
}
use nullark.Indexer.MerklePaths.Nodes.{
  tree_node, leaf_of, node_of, Lists, IsSound, get_node_hash-node,
}

-- What a verifier computes from a leaf and its path.
pub climb : (Text → Text → Text) → Text → List Text → List ℕ → Text
climb hash_pair computed (element ∷ elements) (bit ∷ bits) =
    climb hash_pair (if bit == 0 then hash_pair computed element else hash_pair element computed)
      elements bits
climb hash_pair computed _ _ = computed

-- The bits of a position, the lowest first.
pub bits_of : ℕ → ℕ → List ℕ
bits_of zero cursor = []
bits_of (suc rounds) cursor = cursor % 2 ∷ bits_of rounds (cursor / 2)

xor_one-even : (cursor : ℕ) → cursor < 2 ^ 31 → cursor % 2 ≡ 0 → xor_one cursor ≡ pos (cursor + 1)
unfolding xor_one
xor_one-even cursor h e = ground arith

xor_one-odd : (cursor : ℕ) → cursor < 2 ^ 31 → cursor % 2 ≡ 1 → xor_one cursor ≡ pos (cursor - 1)
unfolding xor_one
xor_one-odd cursor h e = ground arith

module _ (index : MerklePathIndex) (leaf_indexes : List ℕ)
    (known : Lists index.leaves_by_index leaf_indexes) where
  -- One level: the node above, from the node and its sibling.
  climb_one :
      (level cursor : ℕ) (memo : Nodes)
      → IsSound index memo
      → cursor < 2 ^ 31
      → let at = get_node_hash_at index leaf_indexes level (xor_one cursor) memo in
        ((if (cursor % 2) == 0
            then index.hash_pair (node_of index level cursor) at.0
            else index.hash_pair at.0 (node_of index level cursor))
          ≡ node_of index (suc level) (cursor / 2))
        × IsSound index at.1
  unfolding get_node_hash_at tree_node
  climb_one level cursor memo sound h = elim (Bool-cases ((cursor % 2) == 0)) [
    | inl even ↦
        let e : cursor % 2 ≡ 0 = ground (arith, even) in
        let (same, sound') =
          get_node_hash-node index leaf_indexes known level (cursor + 1) memo sound in
        let here : cursor / 2 * 2 ≡ cursor = omega (arith, e) in
        rw (even, xor_one-even cursor h e, same, here) (refl, sound')
    | inr odd ↦
        let e : cursor % 2 ≡ 1 = ground (arith, odd) in
        let (same, sound') =
          get_node_hash-node index leaf_indexes known level (cursor - 1) memo sound in
        let left : cursor / 2 * 2 ≡ cursor - 1 = omega (arith, e) in
        let back : cursor - 1 + 1 ≡ cursor = omega (arith, e) in
        rw (odd, xor_one-odd cursor h e, same, left, back) (refl, sound')
  ]

  path_from-climb :
      (rounds level cursor : ℕ) (memo : Nodes)
      → IsSound index memo
      → cursor < 2 ^ 31
      → cursor < 2 ^ rounds
      → let path = path_from index leaf_indexes rounds level cursor memo in
        (climb index.hash_pair (node_of index level cursor) path.0 path.1
          ≡ node_of index (level + rounds) 0)
        × (path.1 ≡ bits_of rounds cursor)
        × (length path.0 ≡ rounds)
        × IsSound index path.2
  unfolding path_from climb bits_of
  path_from-climb zero level cursor memo sound h k =
      let root : cursor ≡ 0 = omega arith in rw (root, add-zero) (refl, refl, refl, sound)
  path_from-climb (suc rounds) level cursor memo sound h k =
      let next : level + 1 ≡ suc level = omega arith in
      let total : suc level + rounds ≡ level + suc rounds = omega arith in
      let (up, sound') = climb_one level cursor memo sound h in
      let (root, bits, count, sound'') =
        path_from-climb rounds (suc level) (cursor / 2)
          (get_node_hash_at index leaf_indexes level (xor_one cursor) memo).1 sound' (omega arith)
          (omega (arith, pow-suc 2 rounds)) in
      rw (next, up)
        (
          root ∙ ap (λ l. node_of index l 0) total,
          ap (λ b. cursor % 2 ∷ b) bits,
          ap suc count,
          sound'',
        )

-- The path of an index: it has the tree's root, a sibling for each level, the bits of the leaf index,
-- and leads from the leaf to the root.
pub record IsProof (index : MerklePathIndex) (r : MerklePathResult) : Type 0 where
  pub root_is : r.root ≡ node_of index index.depth 0
  pub leads :
      climb index.hash_pair (leaf_of index r.leaf_index) r.path_elements r.path_indices ≡ r.root
  pub bits_are : r.path_indices ≡ bits_of index.depth r.leaf_index
  pub length_is : length r.path_elements ≡ index.depth

pub compute_path-IsProof :
    (index : MerklePathIndex) (leaf_indexes : List ℕ) (commitment : Text) (leaf_index : ℕ)
    → Lists index.leaves_by_index leaf_indexes
    → leaf_index < 2 ^ 31
    → leaf_index < 2 ^ index.depth
    → IsProof index (compute_path index leaf_indexes commitment leaf_index)
unfolding compute_path tree_node
compute_path-IsProof index leaf_indexes commitment leaf_index known h k =
    let (root, bits, count, sound) =
      path_from-climb index leaf_indexes known index.depth 0 leaf_index [] (λ l p h e. cc) h k in
    let (top, _) =
      get_node_hash-node index leaf_indexes known index.depth 0
        (path_from index leaf_indexes index.depth 0 leaf_index []).2 sound in
    let from_zero : 0 + index.depth ≡ index.depth = omega arith in
    record {
      root_is = top;
      leads = root ∙ ap (λ l. node_of index l 0) from_zero ∙ sym top;
      bits_are = bits;
      length_is = count;
    }
