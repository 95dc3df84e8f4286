-- ===== src/Sdk/Merkle/Chain.antt =====
-- `verifyRootAcceptedChain` of packages/sdk/src/merkle/reconstruct.ts: the history of accepted roots is
-- replayed, and every root compared with the computed one. A hexadecimal string is a `Text`.
pub mod Roots
pub mod History
pub mod Hex
mod Examples
use nullark.Prelude.{
  ℕ, zero, suc, ◌^◌, Bool, true, false, not, ◌&&◌, ◌||◌, List, [], ◌∷◌, ◌++◌, ltb, leb, ◌==◌, ◌-◌,
  if◌then◌else◌, Result, ok, err, ◌>>=◌, ◌>>◌, throw_if, length, get_or,
}
use nullark.Prelude.Int.{ℤ}
use nullark.Prelude.Text.{Text, text, text_eq, to_lower_case, to_string, read_digits, all_hex}
use nullark.Sdk.Merkle.{
  bn254_scalar_field, FieldLabel, root_label, previous_root_label, inserted_commitment_label,
  MerkleError, not_a_field_bytes32, initialization_root_mismatch, previous_root_mismatch,
  capacity_exceeded, root_mismatch, insert_leaf_and_compute_root,
}

pub record RootAcceptedLogRecord : Type 0 where
  pub root : Text
  pub previous_root : Text
  pub inserted_commitment : Text

-- `isHexBytes32`: `/^0x[0-9a-fA-F]{64}$/`
unfoldable pub is_hex_bytes32 : Text → Bool
unfolding all_hex
is_hex_bytes32 (zero_unit ∷ x ∷ digits) =
    zero_unit == b'0' && (x == b'x' && (length digits == 64 && all_hex digits))
is_hex_bytes32 _ = false

-- `BigInt(value)`, of a text that passed `isHexBytes32`.
unfoldable pub big_int : Text → ℕ
unfolding read_digits
big_int (zero_unit ∷ x ∷ digits) = read_digits 16 0 digits
big_int _ = 0

unfoldable pub assert_field_bytes32 : Text → FieldLabel → Result MerkleError Text
unfolding is_hex_bytes32 big_int
assert_field_bytes32 value label =
    if not (is_hex_bytes32 value) || leb bn254_scalar_field (big_int value)
    then err (not_a_field_bytes32 label)
    else ok value

-- `"0".repeat(n)`
unfoldable pub zeros_text : ℕ → Text
zeros_text zero = []
zeros_text (suc n) = b'0' ∷ zeros_text n

unfoldable pub to_bytes32 : ℕ → Text
unfolding zeros_text to_string
to_bytes32 value =
    let digits = to_string 16 value in text "0x" ++ (zeros_text (64 - length digits) ++ digits)

-- `array.slice(0, n)`
unfoldable pub slice_front : ℕ → List ℕ → List ℕ
slice_front zero xs = []
slice_front (suc n) [] = []
slice_front (suc n) (x ∷ xs) = x ∷ slice_front n xs

-- The variables of the loop.
pub record Chain : Type 0 where
  pub filled_subtrees : List ℕ
  pub leaves : List Text
  pub accepted_root : Text

pub record VerifiedChain : Type 0 where
  pub leaves : List Text
  pub root : Text

-- `a.toLowerCase() === b.toLowerCase()`
unfoldable pub same_hex : Text → Text → Bool
unfolding text_eq to_lower_case
same_hex a b = text_eq (to_lower_case a) (to_lower_case b)

-- A log that inserts no commitment.
unfoldable pub initialize : Text → Text → Text → Chain → Result MerkleError Chain
unfolding same_hex big_int
initialize initial_root root previous_root chain = do
  throw_if (not (big_int previous_root == 0) || not (same_hex root initial_root))
      initialization_root_mismatch
  ok (record chain { accepted_root = root })

module _ (hash : List ℕ → ℤ) (depth : ℕ) (zero_hashes : List ℕ) where
  -- A log that inserts a commitment.
  unfoldable pub append_leaf : Text → Text → Text → Chain → Result MerkleError Chain
  unfolding same_hex big_int insert_leaf_and_compute_root to_bytes32
  append_leaf root previous_root inserted_commitment chain = do
    throw_if (not (same_hex previous_root chain.accepted_root)) previous_root_mismatch
    throw_if (leb (2 ^ depth) (length chain.leaves)) capacity_exceeded
    (computed_root, filled) ←
        insert_leaf_and_compute_root hash (big_int inserted_commitment) (length chain.leaves) depth
          zero_hashes chain.filled_subtrees
    throw_if (not (same_hex root (to_bytes32 computed_root))) root_mismatch
    ok (record {
      filled_subtrees = filled;
      leaves = chain.leaves ++ inserted_commitment ∷ [];
      accepted_root = root;
    })

  unfoldable pub accept_log : Text → RootAcceptedLogRecord → Chain → Result MerkleError Chain
  unfolding assert_field_bytes32 big_int initialize append_leaf
  accept_log initial_root log chain = do
    root ← assert_field_bytes32 log.root root_label
    previous_root ← assert_field_bytes32 log.previous_root previous_root_label
    inserted_commitment ← assert_field_bytes32 log.inserted_commitment inserted_commitment_label
    if big_int inserted_commitment == 0
        then initialize initial_root root previous_root chain
        else append_leaf root previous_root inserted_commitment chain

  -- The loop.
  unfoldable pub accept_logs : Text → List RootAcceptedLogRecord → Chain → Result MerkleError Chain
  unfolding accept_log
  accept_logs initial_root [] chain = ok chain
  accept_logs initial_root (log ∷ logs) chain = do
    next ← accept_log initial_root log chain
    accept_logs initial_root logs next

  unfoldable pub verify_root_accepted_chain :
      List RootAcceptedLogRecord → Result MerkleError VerifiedChain
  unfolding accept_logs slice_front to_bytes32
  verify_root_accepted_chain logs = do
    let initial_root = to_bytes32 (get_or zero_hashes depth 0)
    chain ← accept_logs initial_root logs (record {
      filled_subtrees = slice_front depth zero_hashes;
      leaves = [];
      accepted_root = initial_root;
    })
    ok (record { leaves = chain.leaves; root = chain.accepted_root })
