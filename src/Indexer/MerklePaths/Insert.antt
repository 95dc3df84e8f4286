-- ===== src/Indexer/MerklePaths/Insert.antt =====
-- services/indexer/src/merklePaths.ts: what an insertion does to the state of the path index.
use mathlib.Core.Path.{subst}
use nullark.Prelude.{
  ℕ, ◌^◌, ◌<◌, ◌≡◌, refl, sym, ap, ◌∙◌, false, not, Option, none, some, inl, inr, List, [], arith,
  Bool-cases, Option-cases, some-injective, ◌==◌, ==_iff, leb, leb→lt, ok, throw_if-ok,
  ok-injective,
}
use nullark.Prelude.Int.{pos}
use nullark.Prelude.Number.{Number, int, is_safe_integer}
use nullark.Prelude.Text.{Text, text_eq, to_lower_case}
use nullark.Prelude.Map.{text_key, nat_key, text_same_iff, get, put, get-put, same_refl}
use nullark.Indexer.MerklePaths.{
  MerklePathIndex, IndexedCommitment, PathError, create_merkle_path_index,
  insert_indexed_commitment, insert_at, natural, at_other_index, positive_integer, depth_not_safe,
  has_other_commitment, leaf_index_exceeds_capacity, commitment_at_other_index, positive_integer,
  depth_not_safe, index_has_other_commitment,
}
use nullark.Indexer.MerklePaths.Paths.{IsValid}

-- Every index that is created is valid.
pub create_merkle_path_index-IsValid :
    (depth : Number) (zero_hash : Text) (hash_pair : Text → Text → Text) (max : Option ℕ)
    (index : MerklePathIndex)
    → create_merkle_path_index depth zero_hash hash_pair max ≡ ok index
    → IsValid index
unfolding create_merkle_path_index get
create_merkle_path_index-IsValid depth zero_hash hash_pair max index =
    elim (Option-cases (positive_integer depth)) [
      | inl e ↦ rw (e, create_merkle_path_index) (λ h. cc)
      | inr (levels, e) ↦
          rw (e, create_merkle_path_index)
            (λ h.
              let made =
                throw_if-ok (not (is_safe_integer (int (pos (2 ^ levels))))) depth_not_safe _ h in
              subst IsValid (ok-injective {E = PathError} made.1) (record {
                listed = λ l e. cc;
                stored = λ k i e. cc;
                found = λ i leaf e. cc;
                fits = λ i leaf e. cc;
                kept = λ k r e. cc;
                bounded = omega arith;
              }))
    ]

-- What the two guards against conflicts let through.
pub not_elsewhere :
    (existing : Option ℕ) (i j : ℕ) → at_other_index existing i ≡ false → existing ≡ some j → j ≡ i
not_elsewhere existing i j h e = ground (arith, h, e)

pub own_commitment :
    (existing : Option Text) (name leaf : Text)
    → has_other_commitment existing name ≡ false
    → existing ≡ some leaf
    → to_lower_case leaf ≡ name
own_commitment none name leaf h e = cc
own_commitment (some x) name leaf h e =
    subst (λ y. to_lower_case y ≡ name) (some-injective e)
      ((text_same_iff _ name).0 (ground (arith, h)))

module _ (index : MerklePathIndex) (v : IsValid index) (commitment : Text) (i : ℕ)
    (room : i < 2 ^ index.depth)
    (not_other_index : (j : ℕ)
      → get index.index_by_commitment (to_lower_case commitment) ≡ some j
      → j ≡ i)
    (not_other_commitment : (leaf : Text)
      → get index.leaves_by_index i ≡ some leaf
      → to_lower_case leaf ≡ to_lower_case commitment) where
  abbrev leaves : List (ℕ × Text)
  leaves = put index.leaves_by_index i commitment

  abbrev indexes : List (Text × ℕ)
  indexes = put index.index_by_commitment (to_lower_case commitment) i

  leaves-own : get leaves i ≡ some commitment
  leaves-own = get-put index.leaves_by_index i commitment i ∙ rw (same_refl i) refl

  indexes-own : get indexes (to_lower_case commitment) ≡ some i
  indexes-own =
      get-put index.index_by_commitment (to_lower_case commitment) i (to_lower_case commitment)
      ∙ rw (same_refl (to_lower_case commitment)) refl

  leaves-other : (j : ℕ) → (i == j) ≡ false → get leaves j ≡ get index.leaves_by_index j
  leaves-other j e = get-put index.leaves_by_index i commitment j ∙ rw e refl

  indexes-other :
      (key : Text)
      → text_eq (to_lower_case commitment) key ≡ false
      → get indexes key ≡ get index.index_by_commitment key
  indexes-other key e =
      get-put index.index_by_commitment (to_lower_case commitment) i key ∙ rw e refl

  still_stored :
      (key : Text) (j : ℕ)
      → get indexes key ≡ some j
      → (leaf : Text) × (get leaves j ≡ some leaf) × (to_lower_case leaf ≡ key)
  still_stored key j e = elim (Bool-cases (text_eq (to_lower_case commitment) key)) [
    | inl same ↦
        let at = (text_same_iff (to_lower_case commitment) key).0 same in
        let here : i ≡ j = some-injective (sym indexes-own ∙ ap (get indexes) at ∙ e) in
        (commitment, ap (get leaves) (sym here) ∙ leaves-own, at)
    | inr other ↦
        let (leaf, there, name) = v.stored key j (sym (indexes-other key other) ∙ e) in
        elim (Bool-cases (i == j)) [
          | inl same ↦
              let here : i ≡ j = (==_iff i j).0 same in
              let own = not_other_commitment leaf (ap (get index.leaves_by_index) here ∙ there) in
              cc (other, (text_same_iff (to_lower_case commitment) key).1 (sym own ∙ name))
          | inr apart ↦ (leaf, leaves-other j apart ∙ there, name)
        ]
  ]

  still_found :
      (j : ℕ) (leaf : Text) → get leaves j ≡ some leaf → get indexes (to_lower_case leaf) ≡ some j
  still_found j leaf e = elim (Bool-cases (i == j)) [
    | inl same ↦
        let here : i ≡ j = (==_iff i j).0 same in
        let it : commitment ≡ leaf = some-injective (sym leaves-own ∙ ap (get leaves) here ∙ e) in
        ap (λ c. get indexes (to_lower_case c)) (sym it) ∙ indexes-own ∙ ap some here
    | inr apart ↦
        let there = v.found j leaf (sym (leaves-other j apart) ∙ e) in
        elim (Bool-cases (text_eq (to_lower_case commitment) (to_lower_case leaf))) [
          | inl same ↦
              let name = (text_same_iff (to_lower_case commitment) (to_lower_case leaf)).0 same in
              let back = not_other_index j (ap (get index.index_by_commitment) name ∙ there) in
              cc (apart, (==_iff i j).1 (sym back))
          | inr other ↦ indexes-other (to_lower_case leaf) other ∙ there
        ]
  ]

  still_fits : (j : ℕ) (leaf : Text) → get leaves j ≡ some leaf → j < 2 ^ index.depth
  still_fits j leaf e = elim (Bool-cases (i == j)) [
    | inl same ↦ subst (λ k. k < 2 ^ index.depth) ((==_iff i j).0 same) room
    | inr apart ↦ v.fits j leaf (sym (leaves-other j apart) ∙ e)
  ]

  inserted-IsValid : IsValid (record index {
    leaves_by_index = leaves;
    index_by_commitment = indexes;
    sorted_leaf_indexes = none;
    path_cache = [];
  })
  unfolding get
  inserted-IsValid = record {
    listed = λ l e. cc;
    stored = still_stored;
    found = still_found;
    fits = still_fits;
    kept = λ k r e. cc;
    bounded = omega arith;
  }

pub insert_at-IsValid :
    (index after : MerklePathIndex) (commitment : Text) (i : ℕ)
    → IsValid index
    → insert_at index commitment i ≡ ok after
    → IsValid after
unfolding insert_at
insert_at-IsValid index after commitment i v h =
    let (room, h1) = throw_if-ok (leb (2 ^ index.depth) i) leaf_index_exceeds_capacity _ h in
    let (elsewhere, h2) =
      throw_if-ok (at_other_index (get index.index_by_commitment (to_lower_case commitment)) i)
        commitment_at_other_index _ h1 in
    let (other, h3) =
      throw_if-ok (has_other_commitment (get index.leaves_by_index i) (to_lower_case commitment))
        index_has_other_commitment _ h2 in
    subst IsValid (ok-injective {E = PathError} h3) (
      inserted-IsValid index v commitment i (leb→lt _ _ room)
        (λ j e. not_elsewhere _ i j elsewhere e) (λ leaf e. own_commitment _ _ leaf other e))

-- An insertion that is not refused keeps the state valid.
pub insert_indexed_commitment-IsValid :
    (index after : MerklePathIndex) (commitment : IndexedCommitment)
    → IsValid index
    → insert_indexed_commitment index commitment ≡ ok after
    → IsValid after
unfolding insert_indexed_commitment
insert_indexed_commitment-IsValid index after commitment v =
    elim (Option-cases (natural commitment.leaf_index)) [
      | inl e ↦ rw (e, insert_indexed_commitment) (λ h. cc)
      | inr (i, e) ↦
          rw (e, insert_indexed_commitment)
            (λ h. insert_at-IsValid index after commitment.commitment i v h)
    ]
