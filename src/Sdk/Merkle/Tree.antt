-- ===== src/Sdk/Merkle/Tree.antt =====
-- The reference: the complete binary tree over leaves that are zero from some index on, level by
-- level, with the hash of two nodes as a total function.
use native.Mathlib.Nat.{pow-suc, div-div-eq-div-mul}
use mathlib.Core.Path.{ap₂}
use nullark.Prelude.{
  ℕ, zero, suc, ◌+◌, ◌*◌, ◌/◌, ◌<◌, ◌≡◌, ◌≢◌, refl, sym, ◌⊎◌, inr, ◌^◌, List, [], ◌∷◌, arith, ok,
}
use nullark.Prelude.Int.{ℤ, pos}
use nullark.Sdk.Merkle.{bn254_scalar_field, FieldLabel, hash_pair}

-- A hash whose value at a pair is `node`, a field element.
pub record IsFieldHash (hash : List ℕ → ℤ) (node : ℕ → ℕ → ℕ) : Type 0 where
  pub at_pair : (left right : ℕ) → hash (left ∷ right ∷ []) ≡ pos (node left right)
  pub in_field : (left right : ℕ) → node left right < bn254_scalar_field

pub hash_pair-node :
    (hash : List ℕ → ℤ) (node : ℕ → ℕ → ℕ) (label : FieldLabel) (left right : ℕ)
    → IsFieldHash hash node
    → hash_pair hash label left right ≡ ok (node left right)
unfolding hash_pair
hash_pair-node hash node label left right h =
    rw (h.at_pair left right) (ground (arith, h.in_field left right))

-- The position of a leaf's ancestor at a level.
unfoldable pub ancestor : ℕ → ℕ → ℕ
ancestor index zero = index
ancestor index (suc level) = ancestor index level / 2

-- The position as the code computes it.
pub ancestor-div : (index level : ℕ) → index / 2 ^ level ≡ ancestor index level
unfolding ancestor
ancestor-div index zero = omega arith
ancestor-div index (suc level) =
    rw (← ancestor-div index level, pow-suc) (sym (div-div-eq-div-mul index (2 ^ level) 2))

-- The next leaf has the same ancestor, or the next one.
pub ancestor-suc :
    (index level : ℕ)
    → (ancestor (index + 1) level ≡ ancestor index level)
      ⊎ (ancestor (index + 1) level ≡ ancestor index level + 1)
unfolding ancestor
ancestor-suc index zero = inr refl
ancestor-suc index (suc level) = ground (arith, ancestor-suc index level)

module _ (node : ℕ → ℕ → ℕ) where
  -- The node at a level and a position, over the leaves.
  unfoldable pub tree_node : (ℕ → ℕ) → ℕ → ℕ → ℕ
  tree_node leaf zero position = leaf position
  tree_node leaf (suc level) position =
      node (tree_node leaf level (position * 2)) (tree_node leaf level (position * 2 + 1))

  -- The root of an empty tree.
  unfoldable pub zero_node : ℕ → ℕ
  zero_node zero = 0
  zero_node (suc level) = node (zero_node level) (zero_node level)

  -- Where all leaves behind one are zero, so are the nodes behind its ancestor.
  pub tree_node-empty :
      (leaf : ℕ → ℕ) (index level position : ℕ)
      → ((i : ℕ) → index < i → leaf i ≡ 0)
      → ancestor index level < position
      → tree_node leaf level position ≡ zero_node level
  unfolding tree_node zero_node ancestor
  tree_node-empty leaf index zero position h b = h position b
  tree_node-empty leaf index (suc level) position h b =
      ap₂ node (tree_node-empty leaf index level (position * 2) h (omega arith))
        (tree_node-empty leaf index level (position * 2 + 1) h (omega arith))

  -- A leaf changes only its ancestors.
  pub tree_node-stable :
      (old new : ℕ → ℕ) (index level position : ℕ)
      → ((i : ℕ) → i ≢ index → new i ≡ old i)
      → position ≢ ancestor index level
      → tree_node new level position ≡ tree_node old level position
  unfolding tree_node ancestor
  tree_node-stable old new index zero position h n = h position n
  tree_node-stable old new index (suc level) position h n =
      ap₂ node (tree_node-stable old new index level (position * 2) h (omega arith))
        (tree_node-stable old new index level (position * 2 + 1) h (omega arith))
