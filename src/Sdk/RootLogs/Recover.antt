-- ===== src/Sdk/RootLogs/Recover.antt =====
-- `fetchRecoveryHintedRootAcceptedLogs` of packages/sdk/src/merkle/rootLogs.ts. A hint says where a
-- commitment was inserted; it is tried first, and the whole history is read where it fails. The node's
-- answers are parameters: those to `eth_getLogs` may differ between the two reads.
use nullark.Prelude.{
  Bool, true, false, List, [], ◌∷◌, Option, none, some, ltb, if◌then◌else◌, Result, ok, err, ◌>>=◌,
  ◌>>◌, throw_if,
}
use nullark.Prelude.Number.{Number}
use nullark.Prelude.Text.{Text}
use nullark.Sdk.Merkle.Chain.{is_hex_bytes32, big_int}
use nullark.Sdk.RootLogs.{
  RawRootAcceptedRpcLog, RootLogsError, hint_too_new, assert_bytes32, DecodedEvent,
  decode_root_accepted_logs,
}
use nullark.Sdk.RootLogs.Fetch.{Runtime, LogFilter, latest_block_of, fetch_root_accepted_logs}
use nullark.Sdk.RootLogs.Hints.{
  RawTransactionReceipt, HintRejection, hash_not_bytes32, logs_did_not_confirm,
  receipt_lookup_failed, hinted_lookup_failed, Hinted, block_of_receipt, block_of_hint,
  resolve_recovery_to_block, decoded_logs_confirm_hint,
}

pub data RecoverySource : Type 0 where
  hint fallback : RecoverySource

pub record RecoveryInput : Type 0 where
  pub runtime : Runtime
  pub commitment : Text
  pub tx_hash_hint : Option Text
  pub block_number_hint : Option Text
  pub leaf_index_hint : Option Number
  pub to_block : Option Text
  pub min_confirmations : Option Number
  pub log_chunk_size : Option Number

pub record RecoveredLogs : Type 0 where
  pub source : RecoverySource
  pub logs : List RawRootAcceptedRpcLog
  pub to_block : Text
  pub hint_rejected_reason : List HintRejection

-- `finalizedToBlock && BigInt(hintedToBlock) > BigInt(finalizedToBlock)`
abbrev pub is_beyond : Option Text → Text → Bool
is_beyond none block = false
is_beyond (some finalized) block = ltb (big_int finalized) (big_int block)

module _ (root_accepted_topic : Text) (block_number : Result Text Text)
    (get_logs : RecoverySource → LogFilter → Result Text (List RawRootAcceptedRpcLog))
    (get_transaction_receipt : Text → Result Text (Option RawTransactionReceipt))
    (decode_event_log : List Text → Text → Result Text DecodedEvent) where
  -- The receipt of the transaction hint.
  abbrev pub after_lookup : Result Text (Option RawTransactionReceipt) → Text → Text → Hinted
  after_lookup (err message) pool commitment = (none, receipt_lookup_failed message ∷ [])
  after_lookup (ok receipt) pool commitment = block_of_receipt receipt pool commitment

  unfoldable pub block_of_transaction : Option Text → Text → Text → Hinted
  unfolding is_hex_bytes32 block_of_receipt
  block_of_transaction none pool commitment = (none, [])
  block_of_transaction (some hash) pool commitment =
      if is_hex_bytes32 hash
      then after_lookup (get_transaction_receipt hash) pool commitment
      else (none, hash_not_bytes32 ∷ [])

  -- The logs of the pool from its deployment on.
  unfoldable pub fetch_until :
      RecoverySource → RecoveryInput → Text → Result RootLogsError (List RawRootAcceptedRpcLog)
  unfolding fetch_root_accepted_logs
  fetch_until source input to_block =
      fetch_root_accepted_logs root_accepted_topic block_number (get_logs source) input.runtime
        (record {
          from_block = some input.runtime.pool_deployment_block;
          to_block = some to_block;
          log_chunk_size = input.log_chunk_size;
        })

  unfoldable pub read_fallback :
      RecoveryInput → Option Text → List HintRejection → Result RootLogsError RecoveredLogs
  unfolding fetch_until
  read_fallback input finalized reason = do
    latest_block ← latest_block_of finalized block_number
    logs ← fetch_until fallback input latest_block
    ok (record {
      source = fallback;
      logs = logs;
      to_block = latest_block;
      hint_rejected_reason = reason;
    })

  -- The hinted read, and whether its logs confirm the hint.
  unfoldable pub read_hinted :
      RecoveryInput → Text → Text → Result RootLogsError (List RawRootAcceptedRpcLog × Bool)
  unfolding fetch_until decode_root_accepted_logs decoded_logs_confirm_hint
  read_hinted input commitment block = do
    logs ← fetch_until hint input block
    decoded ← decode_root_accepted_logs decode_event_log logs
    ok (logs, decoded_logs_confirm_hint decoded commitment input.leaf_index_hint)

  -- What was read with the hint, or the fallback.
  abbrev pub use_hinted :
      RecoveryInput
      → Option Text
      → Text
      → Result RootLogsError (List RawRootAcceptedRpcLog × Bool)
      → Result RootLogsError RecoveredLogs
  use_hinted input finalized block (ok (logs, true)) =
      ok (record { source = hint; logs = logs; to_block = block; hint_rejected_reason = [] })
  use_hinted input finalized block (ok (logs, false)) =
      read_fallback input finalized (logs_did_not_confirm ∷ [])
  use_hinted input finalized block (err e) =
      read_fallback input finalized (hinted_lookup_failed e ∷ [])

  abbrev pub read_logs :
      RecoveryInput → Text → Option Text → Hinted → Result RootLogsError RecoveredLogs
  read_logs input commitment finalized (none, reason) = read_fallback input finalized reason
  read_logs input commitment finalized (some block, reason) = do
    throw_if (is_beyond finalized block) hint_too_new
    use_hinted input finalized block (read_hinted input commitment block)

  unfoldable pub fetch_recovery_hinted_root_accepted_logs :
      RecoveryInput → Result RootLogsError RecoveredLogs
  unfolding assert_bytes32 block_of_transaction block_of_hint resolve_recovery_to_block
      read_fallback read_hinted big_int
  fetch_recovery_hinted_root_accepted_logs input = do
    commitment ← assert_bytes32 input.commitment
    let hinted =
        block_of_hint input.block_number_hint
          (block_of_transaction input.tx_hash_hint input.runtime.pool commitment)
    finalized ←
        resolve_recovery_to_block block_number input.to_block input.min_confirmations
          input.runtime.is_mainnet
    read_logs input commitment finalized hinted
