-- ===== src/Sdk/Merkle/Insert.antt =====
-- `insertLeafAndComputeRoot` keeps the filled subtrees of the tree and returns its root.
use mathlib.Core.Path.{subst}
use native.Mathlib.Decide.{ℕ_discrete}
use native.Mathlib.Numerals.{add-one}
use nullark.Prelude.{
  ℕ, zero, suc, ◌+◌, ◌-◌, ◌*◌, ◌/◌, ◌%◌, ◌^◌, ◌≤◌, ◌<◌, ◌≡◌, ◌≢◌, ap, sym, ◌∙◌, inl, inr, false,
  List, ◌==◌, arith, Bool-cases, ==_iff, ok, length, get_or, set, length-set, get_or-set_self,
  get_or-set_ne,
}
use nullark.Prelude.Int.{ℤ}
use nullark.Sdk.Merkle.{computed_root_label, insert_from, insert_leaf_and_compute_root}
use nullark.Sdk.Merkle.Tree.{
  IsFieldHash, hash_pair-node, ancestor, ancestor-div, ancestor-suc, tree_node, zero_node,
  tree_node-empty, tree_node-stable,
}

module _ (node : ℕ → ℕ → ℕ) where
  -- At a level where the next leaf comes to stand on the right, the filled subtree is its sibling.
  abbrev pub Fills : (ℕ → ℕ) → ℕ → List ℕ → ℕ → Type 0
  Fills leaf count filled level =
      (fallback : ℕ)
      → ancestor count level % 2 ≡ 1
      → get_or filled level fallback ≡ tree_node node leaf level (ancestor count level - 1)

  -- What the filled subtrees hold once `count` leaves stand in the tree.
  pub record IsFilled (leaf : ℕ → ℕ) (count depth : ℕ) (filled : List ℕ) : Type 0 where
    pub size : length filled ≡ depth
    pub at_level : (level : ℕ) → level < depth → Fills leaf count filled level

odd_of_test : (m : ℕ) → ((m % 2) == 0) ≡ false → m % 2 ≡ 1
odd_of_test m h = ground arith

module _ (hash : List ℕ → ℤ) (node : ℕ → ℕ → ℕ) (field_hash : IsFieldHash hash node) (depth : ℕ)
    (zero_hashes : List ℕ)
    (zeros : (level : ℕ) → level < depth → get_or zero_hashes level 0 ≡ zero_node node level)
    (old new : ℕ → ℕ) (index : ℕ) (same : (i : ℕ) → i ≢ index → new i ≡ old i)
    (behind : (i : ℕ) → index < i → new i ≡ 0) where
  -- One round: the parent of the current node.
  left_parent :
      (level current : ℕ)
      → level < depth
      → ancestor index level % 2 ≡ 0
      → current ≡ tree_node node new level (ancestor index level)
      → node current (get_or zero_hashes level 0)
        ≡ tree_node node new (suc level) (ancestor index (suc level))
  unfolding tree_node ancestor
  left_parent level current below even c =
      let here : ancestor index level / 2 * 2 ≡ ancestor index level = omega arith in
      rw (here, zeros level below, c)
        (rw (tree_node-empty node new index level (ancestor index level + 1) behind (omega arith)))

  right_parent :
      (level current : ℕ) (filled : List ℕ)
      → ancestor index level % 2 ≡ 1
      → Fills node old index filled level
      → current ≡ tree_node node new level (ancestor index level)
      → node (get_or filled level (get_or zero_hashes level 0)) current
        ≡ tree_node node new (suc level) (ancestor index (suc level))
  unfolding tree_node ancestor
  right_parent level current filled odd fills c =
      let left : ancestor index level / 2 * 2 ≡ ancestor index level - 1 = omega arith in
      let right : ancestor index level / 2 * 2 + 1 ≡ ancestor index level = omega arith in
      rw (right, left, fills _ odd, c)
        (rw
          (tree_node-stable node old new index level (ancestor index level - 1) same (omega arith)))

  -- The written place is the sibling of the next leaf's ancestor, where that stands on the right.
  left_fills :
      (level current : ℕ) (filled : List ℕ)
      → level < length filled
      → ancestor index level % 2 ≡ 0
      → current ≡ tree_node node new level (ancestor index level)
      → Fills node new (index + 1) (set filled level current) level
  left_fills level current filled inside even c fallback odd =
      let next : ancestor (index + 1) level - 1 ≡ ancestor index level =
        ground (arith, ancestor-suc index level) in
      get_or-set_self filled level current fallback inside
      ∙ c
      ∙ ap (tree_node node new level) (sym next)

  right_fills :
      (level : ℕ) (filled : List ℕ)
      → ancestor index level % 2 ≡ 1
      → Fills node old index filled level
      → Fills node new (index + 1) filled level
  right_fills level filled is_odd fills fallback odd =
      let next : ancestor (index + 1) level ≡ ancestor index level =
        ground (arith, ancestor-suc index level) in
      fills fallback is_odd
      ∙ sym
          (tree_node-stable node old new index level (ancestor index level - 1) same (omega arith))
      ∙ ap (λ a. tree_node node new level (a - 1)) (sym next)

  -- The subtrees from `level` on are those of the old tree; below it, those of the new one.
  record IsBetween (level : ℕ) (filled : List ℕ) : Type 0 where
    size : length filled ≡ depth
    above : (l : ℕ) → level ≤ l → l < depth → Fills node old index filled l
    below : (l : ℕ) → l < level → Fills node new (index + 1) filled l

  set-IsBetween :
      (level current : ℕ) (filled : List ℕ)
      → level < depth
      → ancestor index level % 2 ≡ 0
      → current ≡ tree_node node new level (ancestor index level)
      → IsBetween level filled
      → IsBetween (level + 1) (set filled level current)
  set-IsBetween level current filled inside even c b = record {
    size = length-set filled level current ∙ b.size;
    above = λ l from upto fallback odd.
        get_or-set_ne filled level l current fallback (omega arith)
        ∙ b.above l (omega arith) upto fallback odd;
    below = λ l under. elim (ℕ_discrete l level) [
      | yes here ↦
          subst (Fills node new (index + 1) (set filled level current)) (sym here)
            (left_fills level current filled (omega (arith, b.size)) even c)
      | no other ↦ λ fallback odd.
          get_or-set_ne filled level l current fallback (λ e. other (sym e))
          ∙ b.below l (omega arith) fallback odd
    ];
  }

  keep-IsBetween :
      (level : ℕ) (filled : List ℕ)
      → level < depth
      → ancestor index level % 2 ≡ 1
      → IsBetween level filled
      → IsBetween (level + 1) filled
  keep-IsBetween level filled inside odd b = record {
    size = b.size;
    above = λ l from upto. b.above l (omega arith) upto;
    below = λ l under. elim (ℕ_discrete l level) [
      | yes here ↦
          subst (Fills node new (index + 1) filled) (sym here)
            (right_fills level filled odd (b.above level (omega arith) inside))
      | no other ↦ b.below l (omega arith)
    ];
  }

  insert_from_lem :
      (rounds level current : ℕ) (filled : List ℕ)
      → level + rounds ≡ depth
      → current ≡ tree_node node new level (ancestor index level)
      → IsBetween level filled
      → (after : List ℕ) × (insert_from hash rounds level index zero_hashes filled current
          ≡ ok (tree_node node new depth (ancestor index depth), after))
        × IsFilled node new (index + 1) depth after
  unfolding insert_from
  insert_from_lem zero level current filled e c b =
      let done : level ≡ depth = omega arith in
      (
        filled,
        rw (← done, c),
        record { size = b.size; at_level = λ l upto. b.below l (omega arith) },
      )
  insert_from_lem (suc rounds) level current filled e c b =
      elim (Bool-cases ((index / 2 ^ level) % 2 == 0)) [
        | inl is_left ↦
            let even : ancestor index level % 2 ≡ 0 =
              rw (ancestor-div index level) at ((==_iff ((index / 2 ^ level) % 2) 0).0 is_left) in
            let parent = left_parent level current (omega arith) even c in
            rw (is_left, hash_pair-node hash node computed_root_label current _ field_hash)
              (insert_from_lem rounds (level + 1) (node current (get_or zero_hashes level 0))
                (set filled level current) (omega arith) (rw add-one parent)
                (set-IsBetween level current filled (omega arith) even c b))
        | inr is_right ↦
            let odd : ancestor index level % 2 ≡ 1 =
              rw (ancestor-div index level) at (odd_of_test (index / 2 ^ level) is_right) in
            let sibling = get_or filled level (get_or zero_hashes level 0) in
            let parent =
              right_parent level current filled odd (b.above level (omega arith) (omega arith)) c in
            rw (is_right, hash_pair-node hash node computed_root_label sibling current field_hash)
              (insert_from_lem rounds (level + 1) (node sibling current) filled (omega arith)
                (rw add-one parent) (keep-IsBetween level filled (omega arith) odd b))
      ]

  pub insert_leaf_lem :
      (leaf : ℕ) (filled : List ℕ)
      → new index ≡ leaf
      → IsFilled node old index depth filled
      → (after : List ℕ) × (insert_leaf_and_compute_root hash leaf index depth zero_hashes filled
          ≡ ok (tree_node node new depth (ancestor index depth), after))
        × IsFilled node new (index + 1) depth after
  unfolding insert_leaf_and_compute_root tree_node ancestor
  insert_leaf_lem leaf filled is_leaf f =
      insert_from_lem depth 0 leaf filled (omega arith) (sym is_leaf) (record {
        size = f.size;
        above = λ l _ upto. f.at_level l upto;
        below = λ l under. absurd (omega arith);
      })
