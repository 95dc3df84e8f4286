-- ===== src/Indexer/MerklePaths/Paths.antt =====
-- services/indexer/src/merklePaths.ts: the state of the path index between calls, and what a call
-- returns.
use mathlib.Core.Path.{subst}
use nullark.Prelude.{
  ℕ, ◌^◌, ◌≤◌, ◌<◌, ◌≡◌, refl, sym, ◌∙◌, Option, none, some, inl, inr, List, arith, Option-cases,
  some-injective, length, ltb, ltb→le, ok,
}
use nullark.Prelude.Text.{Text, to_lower_case}
use nullark.Prelude.Sort.{sort_by-IsSorted, Any-sort_by}
use nullark.Prelude.Map.{
  text_key, nat_key, get, delete, keys, keys_iff, length-put, length-delete_present,
}
use nullark.Indexer.MerklePaths.{
  MerklePathIndex, MerklePathResult, sorted_keys, known_or_sorted, compute_path, answer,
  get_merkle_path_for_commitment,
}
use nullark.Indexer.MerklePaths.Nodes.{Lists}
use nullark.Indexer.MerklePaths.Climb.{IsProof, compute_path-IsProof}
use nullark.Indexer.MerklePaths.Cache.{cache_path-bounded, cache_path-get, moved-get}

-- A path that is kept: under its commitment in small letters, for the leaf of that commitment.
pub record IsKept (index : MerklePathIndex) (key : Text) (r : MerklePathResult) : Type 0 where
  pub indexed : get index.index_by_commitment key ≡ some r.leaf_index
  pub named : to_lower_case r.commitment ≡ key
  pub leads : r.leaf_index < 2 ^ 31 → IsProof index r

-- Another list of indexes and other kept paths change nothing of this.
IsKept-update :
    (index : MerklePathIndex) (key : Text) (r : MerklePathResult) (list : Option (List ℕ))
    (cache : List (Text × MerklePathResult))
    → IsKept index key r
    → IsKept (record index { sorted_leaf_indexes = list; path_cache = cache }) key r
IsKept-update index key r list cache k = record {
  indexed = k.indexed;
  named = k.named;
  leads = λ h.
      let path = k.leads h in
      record {
        root_is = path.root_is;
        leads = path.leads;
        bits_are = path.bits_are;
        length_is = path.length_is;
      };
}

pub record IsValid (index : MerklePathIndex) : Type 0 where
  pub listed :
      (list : List ℕ) → index.sorted_leaf_indexes ≡ some list → Lists index.leaves_by_index list
  pub stored :
      (key : Text) (i : ℕ)
      → get index.index_by_commitment key ≡ some i
      → (leaf : Text) × (get index.leaves_by_index i ≡ some leaf) × (to_lower_case leaf ≡ key)
  pub found :
      (i : ℕ) (leaf : Text)
      → get index.leaves_by_index i ≡ some leaf
      → get index.index_by_commitment (to_lower_case leaf) ≡ some i
  pub fits : (i : ℕ) (leaf : Text) → get index.leaves_by_index i ≡ some leaf → i < 2 ^ index.depth
  pub kept :
      (key : Text) (r : MerklePathResult) → get index.path_cache key ≡ some r → IsKept index key r
  pub bounded : length index.path_cache ≤ index.max_path_cache_entries

sorted_keys-Lists : (leaves : List (ℕ × Text)) → Lists leaves (sorted_keys leaves)
unfolding sorted_keys
sorted_keys-Lists leaves = record {
  in_order =
      sort_by-IsSorted ltb (λ a b. a ≤ b) (λ a b c h k. omega arith) (λ a b h. ground (arith, h))
        (λ a b h. ltb→le a b h) (keys leaves);
  complete =
      λ i leaf h. (Any-sort_by ltb (λ j. j ≡ i) (keys leaves)).1 ((keys_iff leaves i).1 (leaf, h));
}

known_or_sorted-Lists :
    (index : MerklePathIndex)
    → IsValid index
    → Lists index.leaves_by_index (known_or_sorted index.sorted_leaf_indexes index.leaves_by_index)
known_or_sorted-Lists index v = of index.sorted_leaf_indexes v.listed
  where
    of :
        (known : Option (List ℕ))
        → ((list : List ℕ) → known ≡ some list → Lists index.leaves_by_index list)
        → Lists index.leaves_by_index (known_or_sorted known index.leaves_by_index)
    of (some list) h = h list refl
    of none h = sorted_keys-Lists index.leaves_by_index

-- A cached path is answered, and kept as the newest.
pub answer-hit :
    (index : MerklePathIndex) (commitment key : Text) (i : ℕ) (cached : MerklePathResult)
    → IsValid index
    → get index.path_cache key ≡ some cached
    → IsValid (answer index commitment key i (some cached)).0
unfolding answer
answer-hit index commitment key i cached v h = record {
  listed = v.listed;
  stored = v.stored;
  found = v.found;
  fits = v.fits;
  kept = λ k r e.
      IsKept-update index k r index.sorted_leaf_indexes _
        (v.kept k r (sym (moved-get index.path_cache key k cached h) ∙ e));
  bounded = omega (
    arith,
    length-put (delete index.path_cache key) key cached,
    length-delete_present index.path_cache key cached h,
    v.bounded,
  );
}

-- A path that is computed is the path of its leaf, and is kept with the list of the indexes.
pub answer-miss :
    (index : MerklePathIndex) (commitment : Text) (i : ℕ)
    → IsValid index
    → get index.index_by_commitment (to_lower_case commitment) ≡ some i
    → let (after, r) = answer index commitment (to_lower_case commitment) i none in
      IsValid after × IsKept index (to_lower_case commitment) r
unfolding answer compute_path
answer-miss index commitment i v h =
    let list = known_or_sorted index.sorted_leaf_indexes index.leaves_by_index in
    let known = known_or_sorted-Lists index v in
    let (leaf, there, name) = v.stored (to_lower_case commitment) i h in
    let r = compute_path index list commitment i in
    let new : IsKept index (to_lower_case commitment) r = record {
      indexed = h;
      named = refl;
      leads =
          λ small. compute_path-IsProof index list commitment i known small (v.fits i leaf there);
    } in
    (
      record {
        listed = λ l e. subst (Lists index.leaves_by_index) (some-injective e) known;
        stored = v.stored;
        found = v.found;
        fits = v.fits;
        kept = λ k s e.
            IsKept-update index k s (some list) _
              (elim (cache_path-get index.max_path_cache_entries (to_lower_case commitment) r
                index.path_cache k s e) [
                  | inl same ↦
                      subst (IsKept index k) same.1 (subst (λ k. IsKept index k r) same.0 new)
                  | inr old ↦ v.kept k s old
                ]);
        bounded =
            cache_path-bounded index.max_path_cache_entries (to_lower_case commitment) r
              index.path_cache v.bounded;
      },
      new,
    )

-- A commitment that is indexed, at a leaf index that fits in 31 bits, has its path: the answer names
-- that leaf and the commitment, but for case, its root is the root of the full tree over the leaves, and
-- it leads from the leaf to the root. The state stays valid, whether the path was kept or is computed.
pub get_merkle_path_for_commitment-IsProof :
    (index : MerklePathIndex) (commitment : Text) (leaf_index : ℕ)
    → IsValid index
    → get index.index_by_commitment (to_lower_case commitment) ≡ some leaf_index
    → leaf_index < 2 ^ 31
    → (after : MerklePathIndex) × (r : MerklePathResult) × (get_merkle_path_for_commitment index
          commitment
        ≡ ok (after, r))
      × IsValid after
      × (r.leaf_index ≡ leaf_index)
      × (to_lower_case r.commitment ≡ to_lower_case commitment)
      × IsProof index r
unfolding get_merkle_path_for_commitment
get_merkle_path_for_commitment-IsProof index commitment leaf_index v h small =
    elim (Option-cases (get index.path_cache (to_lower_case commitment))) [
      | inl e ↦
          let (valid, k) = answer-miss index commitment leaf_index v h in
          (
            (answer index commitment (to_lower_case commitment) leaf_index none).0,
            (answer index commitment (to_lower_case commitment) leaf_index none).1,
            rw (get_merkle_path_for_commitment, h, e) refl,
            valid,
            some-injective (sym k.indexed ∙ h),
            k.named,
            k.leads (rw (some-injective (sym k.indexed ∙ h)) small),
          )
      | inr (r, e) ↦
          let k = v.kept (to_lower_case commitment) r e in
          let same = some-injective (sym k.indexed ∙ h) in
          (
            (answer index commitment (to_lower_case commitment) leaf_index (some r)).0,
            r,
            rw (get_merkle_path_for_commitment, h, e) refl,
            answer-hit index commitment (to_lower_case commitment) leaf_index r v e,
            same,
            k.named,
            k.leads (rw same small),
          )
    ]
