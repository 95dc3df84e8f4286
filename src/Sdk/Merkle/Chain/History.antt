-- ===== src/Sdk/Merkle/Chain/History.antt =====
-- What a verified history does, log by log, to the leaves and to the accepted root.
use mathlib.Core.Path.{subst}
use nullark.Prelude.{
  ℕ, zero, suc, ◌<◌, ◌≡◌, ◌≢◌, refl, ap, inl, inr, ◌⊎◌, List, [], ◌∷◌, ◌++◌, map, arith, ◌==◌,
  Bool-cases, ==_iff, ok, bind-ok, ok-injective, if◌then◌else◌, length, get_or,
}
use nullark.Prelude.Int.{ℤ}
use nullark.Prelude.Text.{Text}
use nullark.Sdk.Merkle.{
  FieldLabel, MerkleError, root_label, previous_root_label, inserted_commitment_label,
}
use nullark.Sdk.Merkle.Tree.{IsFieldHash}
use nullark.Sdk.Merkle.Append.{IsZeros, IsFilled-empty}
use nullark.Sdk.Merkle.Chain.{
  RootAcceptedLogRecord, Chain, VerifiedChain, big_int, assert_field_bytes32, to_bytes32,
  slice_front, initialize, append_leaf, accept_log, accept_logs, verify_root_accepted_chain,
}
use nullark.Sdk.Merkle.Chain.Roots.{
  values, Replays, replayed, initialized, inserted, initialize-lem, Fits, append_leaf-Grown,
}

assert_field_bytes32-same :
    (value : Text) (label : FieldLabel) (result : Text)
    → assert_field_bytes32 value label ≡ ok result
    → result ≡ value
unfolding assert_field_bytes32
assert_field_bytes32-same value label result e = ground arith

length-slice_front : (n : ℕ) (xs : List ℕ) → n < length xs → length (slice_front n xs) ≡ n
unfolding slice_front
length-slice_front zero xs h = refl
length-slice_front (suc n) [] h = absurd (omega arith)
length-slice_front (suc n) (x ∷ xs) h = ap suc (length-slice_front n xs (omega arith))

module _ (hash : List ℕ → ℤ) (node : ℕ → ℕ → ℕ) (field_hash : IsFieldHash hash node) (depth : ℕ)
    (zeros : List ℕ) (z : IsZeros hash node field_hash depth zeros) where
  abbrev FitsHere : Chain → Type 0
  FitsHere = Fits hash node field_hash depth zeros z

  -- The root of the empty tree, as the code computes it.
  abbrev empty_root : Text
  empty_root = to_bytes32 (get_or zeros depth 0)

  abbrev Replayed : List RootAcceptedLogRecord → Chain → Chain → Type 0
  Replayed logs chain after =
      Replays node depth empty_root (values chain.leaves) chain.accepted_root logs
        (values after.leaves) after.accepted_root

  -- A log either starts the tree or appends a leaf.
  abbrev Takes : Text → Text → Text → Chain → Chain → Type 0
  Takes root previous_root leaf chain next =
      ((big_int leaf ≡ 0) × (initialize empty_root root previous_root chain ≡ ok next))
      ⊎ ((big_int leaf ≢ 0)
          × (append_leaf hash depth zeros root previous_root leaf chain ≡ ok next))

  branch-Takes :
      (root previous_root leaf : Text) (chain next : Chain)
      → (if big_int leaf == 0
          then initialize empty_root root previous_root chain
          else append_leaf hash depth zeros root previous_root leaf chain)
        ≡ ok next
      → Takes root previous_root leaf chain next
  branch-Takes root previous_root leaf chain next e = elim (Bool-cases (big_int leaf == 0)) [
    | inl none_inserted ↦ inl ((==_iff (big_int leaf) 0).0 none_inserted, rw none_inserted at e)
    | inr leaf_inserted ↦ inr (ground (arith, leaf_inserted), rw leaf_inserted at e)
  ]

  accept_log-Takes :
      (log : RootAcceptedLogRecord) (chain next : Chain)
      → accept_log hash depth zeros empty_root log chain ≡ ok next
      → Takes log.root log.previous_root log.inserted_commitment chain next
  unfolding accept_log
  accept_log-Takes log chain next e =
      let (r, is_r, e₁) = bind-ok (assert_field_bytes32 log.root root_label) _ e in
      let (p, is_p, e₂) =
        bind-ok (assert_field_bytes32 log.previous_root previous_root_label) _ e₁ in
      let (c, is_c, e₃) =
        bind-ok (assert_field_bytes32 log.inserted_commitment inserted_commitment_label) _ e₂ in
      let same_r = assert_field_bytes32-same log.root root_label r is_r in
      let same_p = assert_field_bytes32-same log.previous_root previous_root_label p is_p in
      let same_c =
        assert_field_bytes32-same log.inserted_commitment inserted_commitment_label c is_c in
      subst (λ x. Takes x log.previous_root log.inserted_commitment chain next) same_r
        (subst (λ x. Takes r x log.inserted_commitment chain next) same_p
          (subst (λ x. Takes r p x chain next) same_c (branch-Takes r p c chain next e₃)))

  accept_log-Replays :
      (log : RootAcceptedLogRecord) (logs : List RootAcceptedLogRecord) (chain next after : Chain)
      → FitsHere chain
      → accept_log hash depth zeros empty_root log chain ≡ ok next
      → (FitsHere next → Replayed logs next after)
      → Replayed (log ∷ logs) chain after
  accept_log-Replays log logs chain next after fits e rest =
      elim (accept_log-Takes log chain next e) [
        | inl (zero_leaf, starts) ↦
            let (zero_previous, same, kept) =
              initialize-lem empty_root log.root log.previous_root chain next starts in
            initialized log zero_leaf zero_previous same
              (subst (λ (c : Chain). (FitsHere c → Replayed logs c after)) kept rest fits)
        | inr (leaf, grows) ↦
            let g =
              append_leaf-Grown hash node field_hash depth zeros z log.root log.previous_root
                log.inserted_commitment chain next fits grows in
            inserted log leaf g.linked g.room g.computed (
              subst
                (λ root.
                  Replays node depth empty_root
                    (values chain.leaves ++ big_int log.inserted_commitment ∷ []) root logs
                    (values after.leaves) after.accepted_root)
                g.named
                (subst
                  (λ vs.
                    Replays node depth empty_root vs next.accepted_root logs (values after.leaves)
                      after.accepted_root)
                  g.grown (rest g.fits)))
      ]

  accept_logs-Replays :
      (logs : List RootAcceptedLogRecord) (chain after : Chain)
      → FitsHere chain
      → accept_logs hash depth zeros empty_root logs chain ≡ ok after
      → Replayed logs chain after
  unfolding accept_logs accept_log
  accept_logs-Replays [] chain after fits e =
      subst (Replayed [] chain) (ok-injective {E = MerkleError} e) replayed
  accept_logs-Replays (log ∷ logs) chain after fits e =
      let (next, is_next, e₁) = bind-ok (accept_log hash depth zeros empty_root log chain) _ e in
      accept_log-Replays log logs chain next after fits is_next
        (λ fits_next. accept_logs-Replays logs next after fits_next e₁)

  -- Under a hash that maps pairs into the field, in a history that is verified with the zero hashes of
  -- the depth, the accepted root begins as the root of the empty tree, is the root of a log after that
  -- log, and is the result's in the end. Every log that inserts a commitment has, but for the case of its
  -- digits, the accepted root as its previous root, finds room in the tree, and names the root of the
  -- tree over the commitments so far and its own. Every other log has the previous root zero and names the
  -- root of the empty tree; it may stand anywhere, also behind commitments, which stay leaves. The leaves
  -- are the inserted commitments.
  pub verify_root_accepted_chain-Replays :
      (logs : List RootAcceptedLogRecord) (result : VerifiedChain)
      → verify_root_accepted_chain hash depth zeros logs ≡ ok result
      → Replays node depth
          (to_bytes32 (get_or zeros depth 0))
          []
          (to_bytes32 (get_or zeros depth 0))
          logs
          (map big_int result.leaves)
          result.root
  unfolding verify_root_accepted_chain
  verify_root_accepted_chain-Replays logs result e =
      let (after, is_after, e₁) = bind-ok (accept_logs hash depth zeros empty_root logs _) _ e in
      let filled = slice_front depth zeros in
      subst
        (λ (c : VerifiedChain).
          Replays node depth empty_root [] empty_root logs (values c.leaves) c.root)
        (ok-injective {E = MerkleError} e₁)
        (accept_logs-Replays logs
          (record { filled_subtrees = filled; leaves = []; accepted_root = empty_root }) after
          (IsFilled-empty hash node field_hash depth filled
            (length-slice_front depth zeros (omega (arith, z.0))))
          is_after)
