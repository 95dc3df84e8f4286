-- ===== src/Sdk/Merkle/Layer.antt =====
-- `buildNextSparseMerkleLayer`: a sparse layer stands for a whole level of the tree.
use mathlib.Core.Path.{subst, ap₂}
use nullark.Prelude.{
  ℕ, suc, ◌+◌, ◌*◌, ◌/◌, ◌≡◌, refl, ap, sym, ◌∙◌, inl, inr, ◌↔◌, Bool, true, false, List, [], ◌∷◌,
  arith, Bool-cases, ==_iff, ◌==◌, ok, Any, Any-append,
}
use nullark.Prelude.Int.{ℤ}
use nullark.Sdk.Merkle.{
  Layer, parent_label, get_node, has_index, add_index, parent_indexes_from, next_layer_from,
  build_next_sparse_merkle_layer,
}
use nullark.Sdk.Merkle.Tree.{IsFieldHash, hash_pair-node, tree_node, zero_node}

-- The layer as a function: a position that it does not hold has the fallback.
abbrev pub Stands : Layer → ℕ → (ℕ → ℕ) → Type 0
Stands layer fallback level = (position : ℕ) → get_node layer position fallback ≡ level position

abbrev Holds : ℕ → Layer → Type 0
Holds position layer = Any (λ entry. entry.0 ≡ position) layer

abbrev Lists : ℕ → List ℕ → Type 0
Lists parent parents = Any (λ p. p ≡ parent) parents

true_ne_false : (b : Bool) → b ≡ true → b ≡ false → ⊥
true_ne_false b t f = cc (t, f)

get_node-missing :
    (layer : Layer) (position fallback : ℕ)
    → ¬ Holds position layer
    → get_node layer position fallback ≡ fallback
unfolding get_node
get_node-missing [] position fallback h = refl
get_node-missing ((key, value) ∷ layer) position fallback h = elim (Bool-cases (key == position)) [
  | inl here ↦ absurd (h (inl ((==_iff key position).0 here)))
  | inr other ↦ rw other (get_node-missing layer position fallback (λ m. h (inr m)))
]

has_index_iff : (xs : List ℕ) (x : ℕ) → (has_index xs x ≡ true) ↔ Lists x xs
unfolding has_index
has_index_iff [] x = (λ h. cc, λ h. absurd h)
has_index_iff (y ∷ ys) x =
    let ih = has_index_iff ys x in
    elim (Bool-cases (y == x)) [
      | inl here ↦ rw here (λ h. inl ((==_iff y x).0 here), λ h. refl)
      | inr other ↦
          rw other (λ h. inr (ih.0 h), elim [ inl e ↦ absurd (ground arith) | inr m ↦ ih.1 m ])
    ]

add_index-kept : (xs : List ℕ) (x y : ℕ) → Lists y xs → Lists y (add_index xs x)
unfolding add_index
add_index-kept xs x y m = elim (Bool-cases (has_index xs x)) [
  | inl old ↦ rw old m
  | inr new ↦ rw new ((Any-append (λ p. p ≡ y) xs (x ∷ [])).1 (inl m))
]

add_index-Lists : (xs : List ℕ) (x : ℕ) → Lists x (add_index xs x)
unfolding add_index
add_index-Lists xs x = elim (Bool-cases (has_index xs x)) [
  | inl old ↦ rw old ((has_index_iff xs x).0 old)
  | inr new ↦ rw new ((Any-append (λ p. p ≡ x) xs (x ∷ [])).1 (inr (inl refl)))
]

-- Every parent of a held position is listed.
parent_indexes_from-kept :
    (parents : List ℕ) (layer : Layer) (parent : ℕ)
    → Lists parent parents
    → Lists parent (parent_indexes_from parents layer)
unfolding parent_indexes_from
parent_indexes_from-kept parents [] parent m = m
parent_indexes_from-kept parents ((index, value) ∷ layer) parent m =
    parent_indexes_from-kept (add_index parents (index / 2)) layer parent
      (add_index-kept parents (index / 2) parent m)

parent_indexes_from-Lists :
    (parents : List ℕ) (layer : Layer) (position : ℕ)
    → Holds position layer
    → Lists (position / 2) (parent_indexes_from parents layer)
unfolding parent_indexes_from
parent_indexes_from-Lists parents [] position m = absurd m
parent_indexes_from-Lists parents ((index, value) ∷ layer) position (inl e) =
    parent_indexes_from-kept (add_index parents (index / 2)) layer (position / 2) (
      subst (λ p. Lists (p / 2) (add_index parents (index / 2))) e
        (add_index-Lists parents (index / 2)))
parent_indexes_from-Lists parents ((index, value) ∷ layer) position (inr m) =
    parent_indexes_from-Lists (add_index parents (index / 2)) layer position m

module _ (hash : List ℕ → ℤ) (node : ℕ → ℕ → ℕ) (field_hash : IsFieldHash hash node) (layer : Layer)
    (zero_hash : ℕ) where
  -- The parent of two places of the layer.
  abbrev parent_of : ℕ → ℕ
  parent_of p = node (get_node layer (p * 2) zero_hash) (get_node layer (p * 2 + 1) zero_hash)

  -- The next layer: a parent for each listed index, and nothing else.
  next_layer_from_lem :
      (parents : List ℕ)
      → (next : Layer) × (next_layer_from hash layer zero_hash parents ≡ ok next)
        × ((p fallback : ℕ) → Lists p parents → get_node next p fallback ≡ parent_of p)
        × ((p fallback : ℕ) → ¬ Lists p parents → get_node next p fallback ≡ fallback)
  unfolding next_layer_from
  next_layer_from_lem [] = ([], refl, λ p d m. absurd m, λ p d n. refl)
  next_layer_from_lem (q ∷ qs) =
      let (rest, e, listed, unlisted) = next_layer_from_lem qs in
      rw (hash_pair-node hash node parent_label _ _ field_hash, e)
        (
          (q, parent_of q) ∷ rest,
          refl,
          λ p d m. elim (Bool-cases (q == p)) [
            | inl here ↦ rw here (ap parent_of ((==_iff q p).0 here))
            | inr other ↦
                rw other
                  (elim m [ inl is_q ↦ absurd (ground arith) | inr later ↦ listed p d later ])
          ],
          λ p d n. elim (Bool-cases (q == p)) [
            | inl here ↦ absurd (n (inl ((==_iff q p).0 here)))
            | inr other ↦ rw other (unlisted p d (λ m. n (inr m)))
          ],
        )

  not_held :
      (p position : ℕ)
      → ¬ Lists p (parent_indexes_from [] layer)
      → position / 2 ≡ p
      → get_node layer position zero_hash ≡ zero_hash
  not_held p position n e = get_node-missing layer position zero_hash (λ m. n (
      subst (λ q. Lists q (parent_indexes_from [] layer)) e
        (parent_indexes_from-Lists [] layer position m)))

  -- Under a hash that maps pairs into the field, where a sparse layer stands for the nodes of a level, with the level's zero hash at the places
  -- that it does not hold, the next layer is built, and stands for the level above in the same way.
  pub build_next_sparse_merkle_layer-Stands :
      (leaf : ℕ → ℕ) (level : ℕ)
      → zero_hash ≡ zero_node node level
      → Stands layer zero_hash (tree_node node leaf level)
      → (next : Layer) × (build_next_sparse_merkle_layer hash layer zero_hash ≡ ok next)
        × Stands next (zero_node node (suc level)) (tree_node node leaf (suc level))
  unfolding build_next_sparse_merkle_layer tree_node zero_node
  build_next_sparse_merkle_layer-Stands leaf level z s =
      let parents = parent_indexes_from [] layer in
      let (next, e, listed, unlisted) = next_layer_from_lem parents in
      (
        next,
        e,
        λ p. elim (Bool-cases (has_index parents p)) [
          | inl here ↦
              listed p (node (zero_node node level) (zero_node node level))
                ((has_index_iff parents p).0 here)
              ∙ ap₂ node (s (p * 2)) (s (p * 2 + 1))
          | inr away ↦
              let n = λ (m : Lists p parents).
                true_ne_false (has_index parents p) ((has_index_iff parents p).1 m) away in
              unlisted p (node (zero_node node level) (zero_node node level)) n
              ∙ ap₂ node (sym z ∙ sym (not_held p (p * 2) n (omega arith)) ∙ s (p * 2))
                  (sym z ∙ sym (not_held p (p * 2 + 1) n (omega arith)) ∙ s (p * 2 + 1))
        ],
      )
