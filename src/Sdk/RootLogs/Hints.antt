-- ===== src/Sdk/RootLogs/Hints.antt =====
-- The hints of a recovery, of packages/sdk/src/merkle/rootLogs.ts: where they point, the boundary of
-- finality, and `decodedLogsConfirmHint`.
use nullark.Prelude.{
  ℕ, zero, suc, ◌-◌, Bool, true, false, not, ◌&&◌, List, [], ◌∷◌, ◌++◌, Option, none, some, ltb,
  ◌==◌, if◌then◌else◌, Result, ok, err, ◌>>=◌, ◌>>◌, throw_if, any_of,
}
use nullark.Prelude.Int.{ℤ, pos, negsuc}
use nullark.Prelude.Number.{Number, int, not_integer}
use nullark.Prelude.Text.{Text}
use nullark.Sdk.Merkle.Chain.{RootAcceptedLogRecord, big_int, same_hex}
use nullark.Sdk.RootLogs.{
  RootLogsError, not_a_big_int, recovery_to_block_not_a_quantity, confirmations_not_positive,
  both_finality_policies, confirmations_exceed_latest, finality_policy_required, is_block_quantity,
  to_block_quantity,
}
use nullark.Sdk.RootLogs.Fetch.{big_int_of_number, is_big_int, answered}

pub record ReceiptLog : Type 0 where
  pub address : Option Text
  pub topics : Option (List Text)

pub record RawTransactionReceipt : Type 0 where
  pub block_number : Option Text
  pub logs : Option (List ReceiptLog)

-- Why a hint was not used; the text of the code is the reasons, in order, with `; ` between them.
pub data HintRejection : Type 0 where
  hash_not_bytes32 commitment_not_in_receipt block_hint_not_a_quantity : HintRejection
  logs_did_not_confirm : HintRejection
  receipt_lookup_failed : Text → HintRejection
  hinted_lookup_failed : RootLogsError → HintRejection

-- `receiptContainsCommitment`
abbrev pub is_at : Text → Option Text → Bool
is_at pool none = false
is_at pool (some address) = same_hex address pool

abbrev pub has_topic : Text → Option (List Text) → Bool
has_topic commitment none = false
has_topic commitment (some topics) = any_of (λ topic. same_hex topic commitment) topics

unfoldable pub receipt_contains_commitment : Option (List ReceiptLog) → Text → Text → Bool
unfolding any_of same_hex
receipt_contains_commitment none pool commitment = false
receipt_contains_commitment (some logs) pool commitment =
    any_of (λ log. is_at pool log.address && has_topic commitment log.topics) logs

-- `hintedToBlock` and `hintRejectedReason` after a receipt was asked for.
abbrev pub Hinted : Type 0
Hinted = Option Text × List HintRejection

unfoldable pub block_of_receipt : Option RawTransactionReceipt → Text → Text → Hinted
unfolding is_block_quantity receipt_contains_commitment
block_of_receipt none pool commitment = (none, commitment_not_in_receipt ∷ [])
block_of_receipt (some receipt) pool commitment = elim receipt.block_number [
  | none ↦ (none, commitment_not_in_receipt ∷ [])
  | some block ↦
      if is_block_quantity block && receipt_contains_commitment receipt.logs pool commitment
      then (some block, [])
      else (none, commitment_not_in_receipt ∷ [])
]

-- `appendHintRejectedReason`: an empty message counts as none.
abbrev pub append_hint_rejected_reason : List HintRejection → HintRejection → List HintRejection
append_hint_rejected_reason (receipt_lookup_failed [] ∷ []) next = next ∷ []
append_hint_rejected_reason previous next = previous ++ next ∷ []

-- The block hint is read where the receipt gave no block.
unfoldable pub block_of_hint : Option Text → Hinted → Hinted
unfolding is_block_quantity
block_of_hint block_hint (some block, reason) = (some block, reason)
block_of_hint none (none, reason) = (none, reason)
block_of_hint (some block) (none, reason) =
    if is_block_quantity block
    then (some block, reason)
    else (none, append_hint_rejected_reason reason block_hint_not_a_quantity)

-- `resolveRecoveryToBlock`; `block_number` is what the node answers to `eth_blockNumber`.
abbrev pub boundary : ℤ → Option Text → Result Text Text → Result RootLogsError (Option Text)
boundary (negsuc n) to_block block_number = err confirmations_not_positive
boundary (pos zero) to_block block_number = err confirmations_not_positive
boundary (pos (suc n)) (some s) block_number = err both_finality_policies
boundary (pos (suc n)) none block_number = do
  latest_block ← answered block_number
  throw_if (not (is_big_int latest_block)) not_a_big_int
  throw_if (ltb (big_int latest_block) (suc n)) confirmations_exceed_latest
  ok (some (to_block_quantity (big_int latest_block - suc n)))

abbrev pub given_not_a_quantity : Option Text → Bool
given_not_a_quantity none = false
given_not_a_quantity (some s) = not (is_block_quantity s)

abbrev pub without_confirmations : Option Text → Bool → Result RootLogsError (Option Text)
without_confirmations (some s) required = ok (some s)
without_confirmations none required = throw_if required finality_policy_required >> ok none

unfoldable pub resolve_recovery_to_block :
    Result Text Text → Option Text → Option Number → Bool → Result RootLogsError (Option Text)
unfolding is_block_quantity big_int to_block_quantity
resolve_recovery_to_block block_number to_block none required = do
  throw_if (given_not_a_quantity to_block) recovery_to_block_not_a_quantity
  without_confirmations to_block required
resolve_recovery_to_block block_number to_block (some min_confirmations) required = do
  throw_if (given_not_a_quantity to_block) recovery_to_block_not_a_quantity
  confirmations ← big_int_of_number min_confirmations
  boundary confirmations to_block block_number

-- `decodedLogsConfirmHint`
unfoldable pub leaves_of : List RootAcceptedLogRecord → List Text
unfolding big_int
leaves_of [] = []
leaves_of (log ∷ logs) =
    let rest = leaves_of logs in
    if big_int log.inserted_commitment == 0 then rest else log.inserted_commitment ∷ rest

-- `leaves.findIndex(...)`, from a number on.
unfoldable pub find_index : Text → List Text → ℕ → Option ℕ
unfolding same_hex
find_index commitment [] i = none
find_index commitment (leaf ∷ leaves) i =
    let rest = find_index commitment leaves (suc i) in
    if same_hex leaf commitment then some i else rest

abbrev pub is_index : ℕ → Number → Bool
is_index i (int (pos n)) = i == n
is_index i (int (negsuc n)) = false
is_index i (not_integer n) = false

abbrev pub agrees : Option ℕ → Option Number → Bool
agrees none leaf_index_hint = false
agrees (some i) none = true
agrees (some i) (some n) = is_index i n

unfoldable pub decoded_logs_confirm_hint : List RootAcceptedLogRecord → Text → Option Number → Bool
unfolding leaves_of find_index
decoded_logs_confirm_hint logs commitment leaf_index_hint =
    agrees (find_index commitment (leaves_of logs) 0) leaf_index_hint
