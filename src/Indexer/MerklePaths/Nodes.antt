-- ===== src/Indexer/MerklePaths/Nodes.antt =====
-- services/indexer/src/merklePaths.ts: `getNodeHash`, with its memo and its shortcut for empty ranges,
-- is the node of the full tree.
use nullark.Prelude.{
  ℕ, zero, suc, ◌+◌, ◌*◌, ◌^◌, ◌≤◌, ◌<◌, ◌≡◌, refl, sym, ap, ◌∙◌, false, none, some, inl, inr, List,
  arith, Bool-cases, Option-cases, some-injective, Any, Any-mono,
}
use mathlib.Core.Path.{ap₂}
use native.Mathlib.Nat.{mul_assoc, mul_comm, pow-suc}
use nullark.Prelude.Text.{Text}
use nullark.Prelude.Map.{get, put, nat_key, get-put}
use nullark.Indexer.MerklePaths.{
  MerklePathIndex, Nodes, place_same, place_same_iff, place_key, or_zero, zero_at,
  has_leaf_in_range, get_node_hash,
}
use nullark.Indexer.MerklePaths.Search.{InOrder, has_leaf_in_range_iff}

-- The node of the full tree over the leaves: no memo, and no shortcut.
unfoldable pub tree_node : (Text → Text → Text) → (ℕ → Text) → ℕ → ℕ → Text
tree_node hash_pair leaf zero position = leaf position
tree_node hash_pair leaf (suc level) position =
    hash_pair (tree_node hash_pair leaf level (position * 2))
      (tree_node hash_pair leaf level (position * 2 + 1))

abbrev pub leaf_of : MerklePathIndex → ℕ → Text
leaf_of index position = or_zero (get index.leaves_by_index position) index.zero_hash

abbrev pub node_of : MerklePathIndex → ℕ → ℕ → Text
node_of index = tree_node index.hash_pair (leaf_of index)

-- The list has all indexes of leaves, in order.
pub record Lists (leaves : List (ℕ × Text)) (leaf_indexes : List ℕ) : Type 0 where
  pub in_order : InOrder leaf_indexes
  pub complete : (i : ℕ) (leaf : Text) → get leaves i ≡ some leaf → Any (λ j. j ≡ i) leaf_indexes

abbrev pub IsSound : MerklePathIndex → Nodes → Type 0
IsSound index memo =
    (level position : ℕ) (h : Text)
    → get memo (level, position) ≡ some h
    → h ≡ node_of index level position

-- The positions under a node, from those under its two children.
under_pair : (p level : ℕ) → p * 2 ^ suc level ≡ p * 2 * 2 ^ level
under_pair p level =
    ap (λ t. p * t) (pow-suc 2 level ∙ mul_comm (2 ^ level) 2) ∙ sym (mul_assoc p 2 (2 ^ level))

right_child_start : (p w : ℕ) → (p * 2 + 1) * w ≡ p * 2 * w + w
right_child_start p w = grind arith

left_half :
    (p level i : ℕ)
    → p * 2 * 2 ^ level ≤ i
    → i < p * 2 * 2 ^ level + 2 ^ level
    → (p * 2 ^ suc level ≤ i) × (i < p * 2 ^ suc level + 2 ^ suc level)
left_half p level i h k =
    (omega (arith, under_pair p level), omega (arith, under_pair p level, pow-suc 2 level))

right_half :
    (p level i : ℕ)
    → (p * 2 + 1) * 2 ^ level ≤ i
    → i < (p * 2 + 1) * 2 ^ level + 2 ^ level
    → (p * 2 ^ suc level ≤ i) × (i < p * 2 ^ suc level + 2 ^ suc level)
right_half p level i h k =
    let e = right_child_start p (2 ^ level) in
    (omega (arith, e, under_pair p level), omega (arith, e, under_pair p level, pow-suc 2 level))

module _ (index : MerklePathIndex) where
  -- A subtree with no leaf is the empty one of its height.
  empty_node :
      (level position : ℕ)
      → ((i : ℕ)
          → position * 2 ^ level ≤ i
          → i < position * 2 ^ level + 2 ^ level
          → get index.leaves_by_index i ≡ none)
      → node_of index level position ≡ zero_at index.hash_pair index.zero_hash level
  unfolding tree_node zero_at
  empty_node zero position h = rw (h position (omega arith) (omega arith)) refl
  empty_node (suc level) position h =
      ap₂ index.hash_pair
        (empty_node level (position * 2)
          (λ i p q. let (a, b) = left_half position level i p q in h i a b))
        (empty_node level (position * 2 + 1)
          (λ i p q. let (a, b) = right_half position level i p q in h i a b))

  module _ (leaf_indexes : List ℕ) (known : Lists index.leaves_by_index leaf_indexes) where
    no_leaf :
        (start end i : ℕ)
        → has_leaf_in_range leaf_indexes start end ≡ false
        → start ≤ i
        → i < end
        → get index.leaves_by_index i ≡ none
    no_leaf start end i h p q = elim (Option-cases (get index.leaves_by_index i)) [
      | inl e ↦ e
      | inr (leaf, e) ↦
          let here =
            Any-mono (λ j. j ≡ i) (λ j. (start ≤ j) × (j < end)) (λ j k. (omega arith, omega arith))
              leaf_indexes (known.complete i leaf e) in
          cc (h, (has_leaf_in_range_iff leaf_indexes known.in_order start end).1.1 here)
    ]

    IsSound-put :
        (memo : Nodes) (level position : ℕ) (h : Text)
        → IsSound index memo
        → h ≡ node_of index level position
        → IsSound index (put memo (level, position) h)
    IsSound-put memo level position h sound e l p found q =
        elim (Bool-cases (place_same (level, position) (l, p))) [
          | inl same ↦
              let at = (place_same_iff (level, position) (l, p)).0 same in
              let new = get-put memo (level, position) h (l, p) ∙ rw same refl in
              some-injective (sym q ∙ new) ∙ e ∙ ap (λ place. node_of index place.0 place.1) at
          | inr other ↦
              let old = get-put memo (level, position) h (l, p) ∙ rw other refl in
              sound l p found (sym old ∙ q)
        ]

    -- The node is that of the full tree, and the memo stays sound.
    pub get_node_hash-node :
        (level position : ℕ) (memo : Nodes)
        → IsSound index memo
        → ((get_node_hash index leaf_indexes level position memo).0 ≡ node_of index level position)
          × IsSound index (get_node_hash index leaf_indexes level position memo).1
    unfolding get_node_hash tree_node
    get_node_hash-node zero position memo sound = (refl, sound)
    get_node_hash-node (suc level) position memo sound =
        elim (Option-cases (get memo (suc level, position))) [
          | inr (h, e) ↦ rw (get_node_hash, e) (sound (suc level) position h e, sound)
          | inl e ↦
              elim (Bool-cases (
                has_leaf_in_range leaf_indexes (position * 2 ^ suc level)
                  (position * 2 ^ suc level + 2 ^ suc level))) [
                    | inr empty ↦
                        let none_below = empty_node (suc level) position (λ i p q.
                          no_leaf (position * 2 ^ suc level)
                            (position * 2 ^ suc level + 2 ^ suc level) i empty p q) in
                        rw (get_node_hash, e, empty) (sym none_below, sound)
                    | inl some_ ↦
                        let (left, with_left) =
                          get_node_hash-node level (position * 2) memo sound in
                        let (right, with_right) =
                          get_node_hash-node level (position * 2 + 1)
                            (get_node_hash index leaf_indexes level (position * 2) memo).1
                            with_left in
                        let both = ap₂ index.hash_pair left right in
                        rw (get_node_hash, e, some_)
                          (both, IsSound-put _ (suc level) position _ with_right both)
                  ]
        ]
