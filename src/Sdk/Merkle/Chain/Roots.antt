-- ===== src/Sdk/Merkle/Chain/Roots.antt =====
-- One log of a history: what appending a leaf to a chain means for the tree.
use mathlib.Core.Path.{subst}
use nullark.Prelude.{
  ℕ, suc, ◌+◌, ◌^◌, ◌<◌, ◌≡◌, ◌≢◌, refl, ap, sym, ◌∙◌, Bool, true, false, not, ◌||◌, List, [], ◌∷◌,
  ◌++◌, map, arith, leb, ◌==◌, ok, bind-ok, throw_if-ok, ok-injective, length, length-append,
}
use nullark.Prelude.Int.{ℤ}
use nullark.Prelude.Text.{Text}
use nullark.Sdk.Merkle.{
  MerkleError, initialization_root_mismatch, previous_root_mismatch, capacity_exceeded,
  root_mismatch, insert_leaf_and_compute_root,
}
use nullark.Sdk.Merkle.Tree.{IsFieldHash}
use nullark.Sdk.Merkle.Insert.{IsFilled}
use nullark.Sdk.Merkle.Append.{leaf_at, tree_root, IsZeros, insert_leaf_and_compute_root-tree_root}
use nullark.Sdk.Merkle.Chain.{
  RootAcceptedLogRecord, Chain, big_int, same_hex, to_bytes32, initialize, append_leaf,
}

pub values-append :
    (leaves : List Text) (leaf : Text)
    → map big_int (leaves ++ leaf ∷ []) ≡ map big_int leaves ++ big_int leaf ∷ []
values-append [] leaf = refl
values-append (x ∷ xs) leaf = ap (λ vs. big_int x ∷ vs) (values-append xs leaf)

length-values : (leaves : List Text) → length (map big_int leaves) ≡ length leaves
length-values [] = refl
length-values (x ∷ xs) = ap suc (length-values xs)

-- The values of the leaves of a chain.
abbrev pub values : List Text → List ℕ
values leaves = map big_int leaves

-- What a history does to the leaves and to the accepted root. A log that inserts no commitment
-- has the previous root zero and names `initial_root`, the root of the empty tree, wherever it stands. A
-- log that inserts one names the accepted root as its previous root, and the root of the tree over the
-- leaves with the new one. The root of a log is the accepted one for the next.
pub data Replays (node : ℕ → ℕ → ℕ) (depth : ℕ) (initial_root : Text)
    : List ℕ → Text → List RootAcceptedLogRecord → List ℕ → Text → Type 0 where
  replayed :
      {leaves : List ℕ} {accepted : Text}
      → Replays node depth initial_root leaves accepted [] leaves accepted
  initialized :
      {leaves all : List ℕ} {accepted last : Text} {logs : List RootAcceptedLogRecord}
      (log : RootAcceptedLogRecord)
      → big_int log.inserted_commitment ≡ 0
      → big_int log.previous_root ≡ 0
      → same_hex log.root initial_root ≡ true
      → Replays node depth initial_root leaves log.root logs all last
      → Replays node depth initial_root leaves accepted (log ∷ logs) all last
  inserted :
      {leaves all : List ℕ} {accepted last : Text} {logs : List RootAcceptedLogRecord}
      (log : RootAcceptedLogRecord)
      → big_int log.inserted_commitment ≢ 0
      → same_hex log.previous_root accepted ≡ true
      → length leaves < 2 ^ depth
      → same_hex log.root
          (to_bytes32 (tree_root node depth (leaves ++ big_int log.inserted_commitment ∷ [])))
        ≡ true
      → Replays node depth initial_root
          (leaves ++ big_int log.inserted_commitment ∷ [])
          log.root
          logs
          all
          last
      → Replays node depth initial_root leaves accepted (log ∷ logs) all last

true_of_not : (b : Bool) → not b ≡ false → b ≡ true
true_of_not b h = ground arith

pub initialize-lem :
    (initial_root root previous_root : Text) (chain after : Chain)
    → initialize initial_root root previous_root chain ≡ ok after
    → (big_int previous_root ≡ 0)
      × (same_hex root initial_root ≡ true)
      × (after ≡ record chain { accepted_root = root })
unfolding initialize
initialize-lem initial_root root previous_root chain after e =
    let (guard, e₁) =
      throw_if-ok (not (big_int previous_root == 0) || not (same_hex root initial_root))
        initialization_root_mismatch _ e in
    (ground (arith, guard), ground (arith, guard), sym (ok-injective {E = MerkleError} e₁))

module _ (hash : List ℕ → ℤ) (node : ℕ → ℕ → ℕ) (field_hash : IsFieldHash hash node) (depth : ℕ)
    (zeros : List ℕ) (z : IsZeros hash node field_hash depth zeros) where
  -- The filled subtrees are those of the leaves.
  abbrev pub Fits : Chain → Type 0
  Fits chain =
      IsFilled node (leaf_at (values chain.leaves)) (length (values chain.leaves)) depth
        chain.filled_subtrees

  pub record Grown (root previous_root inserted_commitment : Text) (chain after : Chain)
      : Type 0 where
    pub linked : same_hex previous_root chain.accepted_root ≡ true
    pub named : after.accepted_root ≡ root
    pub fits : Fits after
    pub grown : values after.leaves ≡ values chain.leaves ++ big_int inserted_commitment ∷ []
    pub room : length (values chain.leaves) < 2 ^ depth
    pub computed :
        same_hex root (
          to_bytes32
            (tree_root node depth (values chain.leaves ++ big_int inserted_commitment ∷ [])))
        ≡ true

  Grown-at :
      (root previous_root inserted_commitment : Text) (chain : Chain) (filled : List ℕ)
      → same_hex previous_root chain.accepted_root ≡ true
      → IsFilled node
          (leaf_at (values chain.leaves ++ big_int inserted_commitment ∷ []))
          (length (values chain.leaves) + 1)
          depth
          filled
      → length (values chain.leaves) < 2 ^ depth
      → same_hex root (
          to_bytes32
            (tree_root node depth (values chain.leaves ++ big_int inserted_commitment ∷ [])))
        ≡ true
      → Grown root previous_root inserted_commitment chain (record {
        filled_subtrees = filled;
        leaves = chain.leaves ++ inserted_commitment ∷ [];
        accepted_root = root;
      })
  Grown-at root previous_root inserted_commitment chain filled linked f room computed =
      let longer = length-append (values chain.leaves) (big_int inserted_commitment ∷ []) in
      record {
        linked = linked;
        named = refl;
        fits = rw (values-append chain.leaves inserted_commitment, longer) f;
        grown = values-append chain.leaves inserted_commitment;
        room = room;
        computed = computed;
      }

  pub append_leaf-Grown :
      (root previous_root inserted_commitment : Text) (chain after : Chain)
      → Fits chain
      → append_leaf hash depth zeros root previous_root inserted_commitment chain ≡ ok after
      → Grown root previous_root inserted_commitment chain after
  unfolding append_leaf
  append_leaf-Grown root previous_root inserted_commitment chain after fits e =
      let (same, e₁) =
        throw_if-ok (not (same_hex previous_root chain.accepted_root)) previous_root_mismatch _ e in
      let (room, e₂) = throw_if-ok (leb (2 ^ depth) (length chain.leaves)) capacity_exceeded _ e₁ in
      let size = length-values chain.leaves in
      let fewer : length (values chain.leaves) < 2 ^ depth = ground (arith, size, room) in
      let (filled, is, filled_after) =
        insert_leaf_and_compute_root-tree_root hash node field_hash depth
          (big_int inserted_commitment) (values chain.leaves) zeros chain.filled_subtrees fewer z
          fits in
      let (got, is_got, e₃) =
        bind-ok
          (insert_leaf_and_compute_root hash (big_int inserted_commitment) (length chain.leaves)
            depth zeros chain.filled_subtrees)
          _ e₂ in
      let found = ok-injective {E = MerkleError} (
        sym is_got
        ∙ ap
            (λ n.
              insert_leaf_and_compute_root hash (big_int inserted_commitment) n depth zeros
                chain.filled_subtrees)
            (sym size)
        ∙ is) in
      let (roots, e₄) = throw_if-ok (not (same_hex root (to_bytes32 got.0))) root_mismatch _ e₃ in
      subst (Grown root previous_root inserted_commitment chain) (ok-injective {E = MerkleError} e₄)
        (Grown-at root previous_root inserted_commitment chain got.1
          (true_of_not (same_hex previous_root chain.accepted_root) same)
          (subst
            (λ (l : List ℕ).
              IsFilled node (leaf_at (values chain.leaves ++ big_int inserted_commitment ∷ []))
                (length (values chain.leaves) + 1) depth l)
            (sym (ap (λ (x : ℕ × List ℕ). x.1) found)) filled_after)
          fewer
          (subst (λ n. same_hex root (to_bytes32 n) ≡ true) (ap (λ (x : ℕ × List ℕ). x.0) found)
            (true_of_not (same_hex root (to_bytes32 got.0)) roots)))
