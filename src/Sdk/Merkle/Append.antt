-- ===== src/Sdk/Merkle/Append.antt =====
-- The tree over a list of leaves: its zero hashes, and what appending a leaf does.
use native.Mathlib.Decide.{ℕ_discrete}
use native.Mathlib.Nat.{add-zero, div-eq_of_lt}
use nullark.Prelude.{
  ℕ, zero, suc, ◌+◌, ◌^◌, ◌≤◌, ◌<◌, ◌≡◌, ◌≢◌, refl, ap, sym, ◌∙◌, List, [], ◌∷◌, ◌++◌, arith, ok,
  length, get_or, length-append,
}
use nullark.Prelude.Int.{ℤ}
use nullark.Sdk.Merkle.{
  zero_hash_label, zero_hashes_from, build_merkle_zero_hashes, insert_leaf_and_compute_root,
}
use nullark.Sdk.Merkle.Tree.{
  IsFieldHash, hash_pair-node, ancestor, ancestor-div, tree_node, zero_node,
}
use nullark.Sdk.Merkle.Insert.{IsFilled, insert_leaf_lem}

-- The leaves of a tree: those of the list, and zeros.
abbrev pub leaf_at : List ℕ → ℕ → ℕ
leaf_at leaves i = get_or leaves i 0

unfoldable pub tree_root : (ℕ → ℕ → ℕ) → ℕ → List ℕ → ℕ
unfolding tree_node
tree_root node depth leaves = tree_node node (leaf_at leaves) depth 0

get_or-append_self : (xs : List ℕ) (x : ℕ) → get_or (xs ++ x ∷ []) (length xs) 0 ≡ x
get_or-append_self [] x = refl
get_or-append_self (y ∷ ys) x = get_or-append_self ys x

get_or-append_ne :
    (xs : List ℕ) (x i : ℕ) → i ≢ length xs → get_or (xs ++ x ∷ []) i 0 ≡ get_or xs i 0
get_or-append_ne [] x zero h = absurd (h refl)
get_or-append_ne [] x (suc i) h = refl
get_or-append_ne (y ∷ ys) x zero h = refl
get_or-append_ne (y ∷ ys) x (suc i) h = get_or-append_ne ys x i (λ e. h (ap suc e))

get_or-behind : (xs : List ℕ) (i : ℕ) → length xs ≤ i → get_or xs i 0 ≡ 0
get_or-behind [] i h = refl
get_or-behind (y ∷ ys) zero h = absurd (omega arith)
get_or-behind (y ∷ ys) (suc i) h = get_or-behind ys i (omega arith)

ancestor-zero : (level : ℕ) → ancestor 0 level ≡ 0
unfolding ancestor
ancestor-zero zero = refl
ancestor-zero (suc level) = rw (ancestor-zero level)

module _ (hash : List ℕ → ℤ) (node : ℕ → ℕ → ℕ) (field_hash : IsFieldHash hash node) where
  -- The list of zero hashes, so far.
  abbrev pub IsZeros : ℕ → List ℕ → Type 0
  IsZeros depth zeros =
      (length zeros ≡ depth + 1)
      × ((level : ℕ) → level ≤ depth → get_or zeros level 0 ≡ zero_node node level)

  push-IsZeros :
      (level : ℕ) (zeros : List ℕ)
      → IsZeros level zeros
      → IsZeros (level + 1) (zeros ++ node (zero_node node level) (zero_node node level) ∷ [])
  unfolding zero_node
  push-IsZeros level zeros (size, at) = (
    omega (arith, length-append zeros (node (zero_node node level) (zero_node node level) ∷ [])),
    λ l upto. elim (ℕ_discrete l (suc level)) [
      | yes last ↦
          let here : l ≡ length zeros = omega arith in
          rw here (get_or-append_self zeros (zero_node node (suc level)))
          ∙ ap (zero_node node) (sym last)
      | no before ↦ get_or-append_ne zeros _ l (omega arith) ∙ at l (omega arith)
    ],
  )

  zero_hashes_from_lem :
      (rounds level : ℕ) (zeros : List ℕ)
      → IsZeros level zeros
      → (all : List ℕ) × (zero_hashes_from hash rounds level zeros ≡ ok all)
        × IsZeros (level + rounds) all
  unfolding zero_hashes_from
  zero_hashes_from_lem zero level zeros z = (zeros, refl, rw add-zero z)
  zero_hashes_from_lem (suc rounds) level zeros z =
      let last = z.1 level (omega arith) in
      let more = level + 1 + rounds in
      let same : level + 1 + rounds ≡ level + suc rounds = omega arith in
      rw (last, hash_pair-node hash node zero_hash_label _ _ field_hash, ← same)
        (zero_hashes_from_lem rounds (level + 1) _ (push-IsZeros level zeros z))

  only_leaf : (level : ℕ) → level ≤ 0 → get_or (0 ∷ []) level 0 ≡ zero_node node level
  unfolding zero_node
  only_leaf zero h = refl
  only_leaf (suc level) h = absurd (omega arith)

  -- Under a hash that maps pairs into the field, the zero hashes are built, and are the roots of the
  -- empty trees of each height up to the depth.
  pub build_merkle_zero_hashes-IsZeros :
      (depth : ℕ)
      → (zeros : List ℕ) × (build_merkle_zero_hashes hash depth ≡ ok zeros) × IsZeros depth zeros
  unfolding build_merkle_zero_hashes zero_node
  build_merkle_zero_hashes-IsZeros depth =
      let same : 0 + depth ≡ depth = omega arith in
      rw same at (zero_hashes_from_lem depth 0 (0 ∷ []) (omega arith, λ l upto. only_leaf l upto))

  -- With no leaf yet, nothing is promised of the filled subtrees but their number.
  pub IsFilled-empty :
      (depth : ℕ) (filled : List ℕ)
      → length filled ≡ depth
      → IsFilled node (leaf_at []) 0 depth filled
  IsFilled-empty depth filled size = record {
    size = size;
    at_level = λ level upto fallback odd. absurd (omega (arith, ancestor-zero level));
  }

  -- Under a hash that maps pairs into the field, with the zero hashes of the depth and where the
  -- filled subtrees are those of a tree that has room, inserting the next leaf returns the
  -- root of the complete tree over the leaves and the new one, and keeps the filled subtrees.
  pub insert_leaf_and_compute_root-tree_root :
      (depth leaf : ℕ) (leaves zeros filled : List ℕ)
      → length leaves < 2 ^ depth
      → IsZeros depth zeros
      → IsFilled node (leaf_at leaves) (length leaves) depth filled
      → (after : List ℕ) × (insert_leaf_and_compute_root hash leaf
            (length leaves)
            depth
            zeros
            filled
          ≡ ok (tree_root node depth (leaves ++ leaf ∷ []), after))
        × IsFilled node (leaf_at (leaves ++ leaf ∷ [])) (length leaves + 1) depth after
  unfolding tree_root
  insert_leaf_and_compute_root-tree_root depth leaf leaves zeros filled room z f =
      let top : ancestor (length leaves) depth ≡ 0 =
        sym (ancestor-div (length leaves) depth) ∙ div-eq_of_lt room in
      rw top at (
        insert_leaf_lem hash node field_hash depth zeros (λ l below. z.1 l (omega arith))
          (leaf_at leaves) (leaf_at (leaves ++ leaf ∷ [])) (length leaves)
          (λ i other. get_or-append_ne leaves leaf i other)
          (λ i behind.
            get_or-behind (leaves ++ leaf ∷ []) i (omega (arith, length-append leaves (leaf ∷ []))))
          leaf filled (get_or-append_self leaves leaf) f)
