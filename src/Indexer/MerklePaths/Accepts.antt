-- ===== src/Indexer/MerklePaths/Accepts.antt =====
-- services/indexer/src/merklePaths.ts: when an insertion is accepted, and the path of what was inserted.
use mathlib.Core.Path.{subst}
use nullark.Prelude.{
  ℕ, ◌^◌, ◌<◌, ◌≡◌, ◌↔◌, refl, sym, ap, ◌∙◌, false, Option, none, some, [], arith, leb, leb→lt, ok,
  throw_if-ok, ok-injective,
}
use nullark.Prelude.Int.{pos, negsuc}
use nullark.Prelude.Number.{Number, int, not_integer}
use nullark.Prelude.Text.{Text, to_lower_case}
use nullark.Prelude.Map.{text_key, nat_key, text_same_iff, get, put, get-put, same_refl}
use nullark.Indexer.MerklePaths.{
  MerklePathIndex, MerklePathResult, PathError, insert_indexed_commitment, insert_at,
  at_other_index, has_other_commitment, get_merkle_path_for_commitment, leaf_index_exceeds_capacity,
  commitment_at_other_index, index_has_other_commitment,
}
use nullark.Indexer.MerklePaths.Insert.{not_elsewhere, own_commitment, insert_at-IsValid}
use nullark.Indexer.MerklePaths.Paths.{IsValid, get_merkle_path_for_commitment-IsProof}
use nullark.Indexer.MerklePaths.Climb.{IsProof}

-- The entries of an insertion that is not refused.
insert_at-entries :
    (index after : MerklePathIndex) (commitment : Text) (i : ℕ)
    → insert_at index commitment i ≡ ok after
    → (get after.index_by_commitment (to_lower_case commitment) ≡ some i)
      × (get after.leaves_by_index i ≡ some commitment)
unfolding insert_at
insert_at-entries index after commitment i h =
    let (_, h1) = throw_if-ok (leb (2 ^ index.depth) i) leaf_index_exceeds_capacity _ h in
    let (_, h2) =
      throw_if-ok (at_other_index (get index.index_by_commitment (to_lower_case commitment)) i)
        commitment_at_other_index _ h1 in
    let (_, h3) =
      throw_if-ok (has_other_commitment (get index.leaves_by_index i) (to_lower_case commitment))
        index_has_other_commitment _ h2 in
    let done = ok-injective {E = PathError} h3 in
    (
      subst (λ s. get s.index_by_commitment (to_lower_case commitment) ≡ some i) done
          (get-put index.index_by_commitment (to_lower_case commitment) i (to_lower_case commitment)
            ∙ rw (same_refl (to_lower_case commitment)) refl),
      subst (λ s. get s.leaves_by_index i ≡ some commitment) done
          (get-put index.leaves_by_index i commitment i ∙ rw (same_refl i) refl),
    )

-- After an insertion that is not refused, at a leaf index that fits in 31 bits, the commitment has its
-- path: the answer names the leaf index, the leaf there is the commitment, and the path leads from it to
-- the root of the tree with the new leaf.
pub insert-get_merkle_path :
    (index after : MerklePathIndex) (commitment : Text) (i : ℕ)
    → IsValid index
    → insert_indexed_commitment index (record { commitment = commitment; leaf_index = int (pos i) })
      ≡ ok after
    → i < 2 ^ 31
    → (last : MerklePathIndex) × (r : MerklePathResult) × (get_merkle_path_for_commitment after
          commitment
        ≡ ok (last, r))
      × (r.leaf_index ≡ i)
      × (get after.leaves_by_index i ≡ some commitment)
      × IsProof after r
unfolding insert_indexed_commitment
insert-get_merkle_path index after commitment i v h small =
    let (indexed, leaf) = insert_at-entries index after commitment i h in
    let (last, r, e, _, at, _, path) =
      get_merkle_path_for_commitment-IsProof after commitment i
        (insert_at-IsValid index after commitment i v h) indexed small in
    (last, r, e, at, leaf, path)

at_other_index-no :
    (existing : Option ℕ) (i : ℕ)
    → ((j : ℕ) → existing ≡ some j → j ≡ i)
    → at_other_index existing i ≡ false
at_other_index-no none i h = refl
at_other_index-no (some j) i h = ground (arith, h j refl)

has_other_commitment-no :
    (existing : Option Text) (name : Text)
    → ((leaf : Text) → existing ≡ some leaf → to_lower_case leaf ≡ name)
    → has_other_commitment existing name ≡ false
has_other_commitment-no none name h = refl
has_other_commitment-no (some leaf) name h =
    rw ((text_same_iff (to_lower_case leaf) name).1 (h leaf refl)) refl

abbrev pub Accepted : MerklePathIndex → Text → ℕ → Type 0
Accepted index commitment i =
    (i < 2 ^ index.depth)
    × ((j : ℕ) → get index.index_by_commitment (to_lower_case commitment) ≡ some j → j ≡ i)
    × ((leaf : Text)
        → get index.leaves_by_index i ≡ some leaf
        → to_lower_case leaf ≡ to_lower_case commitment)

abbrev nat_of : Number → ℕ
nat_of (int (pos n)) = n
nat_of _ = 0

-- An insertion at a natural number is accepted exactly if no guard refuses it.
insert_at-ok_iff :
    (index : MerklePathIndex) (commitment : Text) (i : ℕ)
    → ((after : MerklePathIndex) × (insert_at index commitment i ≡ ok after))
      ↔ Accepted index commitment i
unfolding insert_at
insert_at-ok_iff index commitment i = (
  λ (after, h).
      let (room, h1) = throw_if-ok (leb (2 ^ index.depth) i) leaf_index_exceeds_capacity _ h in
      let (elsewhere, h2) =
        throw_if-ok (at_other_index (get index.index_by_commitment (to_lower_case commitment)) i)
          commitment_at_other_index _ h1 in
      let (other, _) =
        throw_if-ok (has_other_commitment (get index.leaves_by_index i) (to_lower_case commitment))
          index_has_other_commitment _ h2 in
      (
        leb→lt _ _ room,
        λ j e. not_elsewhere _ i j elsewhere e,
        λ leaf e. own_commitment _ _ leaf other e,
      ),
  λ (room, elsewhere, own).
      let below : leb (2 ^ index.depth) i ≡ false = ground (arith, room) in
      (
        record index {
          leaves_by_index = put index.leaves_by_index i commitment;
          index_by_commitment = put index.index_by_commitment (to_lower_case commitment) i;
          sorted_leaf_indexes = none;
          path_cache = [];
        },
        rw
            (
              below,
              at_other_index-no (get index.index_by_commitment (to_lower_case commitment)) i
                  elsewhere,
              has_other_commitment-no (get index.leaves_by_index i) (to_lower_case commitment) own,
            )
            refl,
      ),
)

-- An insertion is accepted exactly if its leaf index is a natural number below the capacity, the
-- commitment is indexed at no other index, and that index has no other commitment, but for case.
pub insert_indexed_commitment-ok_iff :
    (index : MerklePathIndex) (commitment : Text) (leaf_index : Number)
    → ((after : MerklePathIndex) × (insert_indexed_commitment index
            (record { commitment = commitment; leaf_index = leaf_index })
          ≡ ok after))
      ↔ ((i : ℕ) × (leaf_index ≡ int (pos i))
          × (i < 2 ^ index.depth)
          × ((j : ℕ) → get index.index_by_commitment (to_lower_case commitment) ≡ some j → j ≡ i)
          × ((leaf : Text)
              → get index.leaves_by_index i ≡ some leaf
              → to_lower_case leaf ≡ to_lower_case commitment))
unfolding insert_indexed_commitment
insert_indexed_commitment-ok_iff index commitment (int (pos i)) = (
  λ h. let (a, b, c) = (insert_at-ok_iff index commitment i).0 h in (i, refl, a, b, c),
  λ (j, e, a, b, c).
      let same : j ≡ i = ap nat_of (sym e) in
      (insert_at-ok_iff index commitment i).1 (subst (Accepted index commitment) same (a, b, c)),
)
insert_indexed_commitment-ok_iff index commitment (int (negsuc i)) = (λ h. cc (h.1), λ h. cc (h.1))
insert_indexed_commitment-ok_iff index commitment (not_integer n) = (λ h. cc (h.1), λ h. cc (h.1))
