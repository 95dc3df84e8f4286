-- ===== src/Indexer/MerklePaths/Cache.antt =====
-- services/indexer/src/merklePaths.ts: the paths that are kept. The loop that evicts the oldest ones ends
-- within the limit, and what is read is what was kept.
use nullark.Prelude.{
  ℕ, zero, suc, ◌≤◌, ◌≡◌, refl, sym, ap, ◌∙◌, some, inl, inr, List, [], ◌∷◌, ◌⊎◌, arith, Bool-cases,
  some-injective, length, ltb, ltb→le,
}
use nullark.Prelude.Text.{Text, text_eq}
use nullark.Prelude.Map.{
  text_key, text_same_iff, get, put, delete, get-put, get-delete, length-delete_head, delete-get,
}
use nullark.Indexer.MerklePaths.{MerklePathResult, evict, cache_path}

-- Enough fuel leaves the cache within the limit.
pub evict-bounded :
    (fuel max : ℕ) (cache : List (Text × MerklePathResult))
    → length cache ≤ fuel
    → length (evict fuel max cache) ≤ max
unfolding evict
evict-bounded zero max cache h = omega arith
evict-bounded (suc fuel) max [] h = omega arith
evict-bounded (suc fuel) max ((oldest, r) ∷ cache) h =
    elim (Bool-cases (ltb max (length ((oldest, r) ∷ cache)))) [
      | inl over ↦ rw over (
          evict-bounded fuel max (delete ((oldest, r) ∷ cache) oldest)
            (omega (arith, length-delete_head oldest r cache)))
      | inr within ↦ rw within (ltb→le _ _ within)
    ]

pub evict-get :
    (fuel max : ℕ) (cache : List (Text × MerklePathResult)) (key : Text) (r : MerklePathResult)
    → get (evict fuel max cache) key ≡ some r
    → get cache key ≡ some r
unfolding evict
evict-get zero max cache key r = λ h. h
evict-get (suc fuel) max [] key r = λ h. h
evict-get (suc fuel) max ((oldest, s) ∷ cache) key r =
    elim (Bool-cases (ltb max (length ((oldest, s) ∷ cache)))) [
      | inl over ↦ rw over (λ h.
          delete-get ((oldest, s) ∷ cache) oldest key r
            (evict-get fuel max (delete ((oldest, s) ∷ cache) oldest) key r h))
      | inr within ↦ rw within (λ h. h)
    ]

module _ (max : ℕ) (key : Text) (r : MerklePathResult)
    (cache : List (Text × MerklePathResult)) where
  pub cache_path-bounded : length cache ≤ max → length (cache_path max key r cache) ≤ max
  unfolding cache_path
  cache_path-bounded h = elim (Bool-cases (ltb 0 max)) [
    | inl on ↦ rw on (evict-bounded (length (put cache key r)) max (put cache key r) (omega arith))
    | inr off ↦ rw off h
  ]

  -- What is kept under a key is the new path, or what was kept there.
  pub cache_path-get :
      (k : Text) (s : MerklePathResult)
      → get (cache_path max key r cache) k ≡ some s
      → ((key ≡ k) × (r ≡ s)) ⊎ (get cache k ≡ some s)
  unfolding cache_path
  cache_path-get k s = elim (Bool-cases (ltb 0 max)) [
    | inr off ↦ rw off (λ h. inr h)
    | inl on ↦ rw on (λ h.
        let there = evict-get (length (put cache key r)) max (put cache key r) k s h in
        elim (Bool-cases (text_eq key k)) [
          | inl same ↦
              let new = get-put cache key r k ∙ rw same refl in
              inl ((text_same_iff key k).0 same, some-injective (sym new ∙ there))
          | inr other ↦ let old = get-put cache key r k ∙ rw other refl in inr (sym old ∙ there)
        ])
  ]

-- A path that is read moves to the end, and what is kept stays the same.
pub moved-get :
    (cache : List (Text × MerklePathResult)) (key k : Text) (r : MerklePathResult)
    → get cache key ≡ some r
    → get (put (delete cache key) key r) k ≡ get cache k
moved-get cache key k r h = elim (Bool-cases (text_eq key k)) [
  | inl same ↦
      get-put (delete cache key) key r k
      ∙ rw same (sym h ∙ ap (get cache) ((text_same_iff key k).0 same))
  | inr other ↦
      get-put (delete cache key) key r k ∙ rw other (get-delete cache key k ∙ rw other refl)
]
