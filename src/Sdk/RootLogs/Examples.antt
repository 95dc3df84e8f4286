-- ===== src/Sdk/RootLogs/Examples.antt =====
-- Recoveries from a node with one log in each block.
use nullark.Prelude.{
  ℕ, suc, ◌+◌, ◌-◌, ◌≡◌, ◌≢◌, refl, true, List, [], ◌∷◌, Option, none, some, Result, ok, err, arith,
}
use nullark.Prelude.Int.{pos}
use nullark.Prelude.Number.{int}
use nullark.Prelude.Text.{Text, text}
use nullark.Sdk.Merkle.Chain.{big_int}
use nullark.Sdk.RootLogs.{
  RawRootAcceptedRpcLog, DecodedEvent, out_of_fuel, to_block_quantity, is_block_quantity,
  normalize_root_accepted_logs, ambiguous_position,
}
use nullark.Sdk.RootLogs.Fetch.{
  Runtime, FetchInput, LogFilter, chunk_size_of, filter_of, fetch_root_accepted_logs,
}
use nullark.Sdk.RootLogs.Hints.{RawTransactionReceipt}
use nullark.Sdk.RootLogs.Pages.{
  logs_of_blocks, fetch_root_accepted_logs-blocks, fetch_root_accepted_logs-ends,
}
use nullark.Sdk.RootLogs.Finality.{IsFinal, big_int-to_block_quantity}
use nullark.Sdk.RootLogs.Recover.{
  hint, RecoveryInput, RecoveredLogs, fetch_recovery_hinted_root_accepted_logs,
}
use nullark.Sdk.RootLogs.Recovered.{
  IsRecovered, fetch_recovery_hinted_root_accepted_logs-IsRecovered,
}

abbrev topic : Text
topic = text "0xaa"

abbrev pool : Text
pool = text "0xFa49572C8bdd03C3DB4caA6bafD73a4BA92F5F15"

abbrev leaf : Text
leaf = text "0x3333333333333333333333333333333333333333333333333333333333333333"

abbrev log_at : ℕ → RawRootAcceptedRpcLog
log_at block = record {
  address = pool;
  topics = topic ∷ leaf ∷ leaf ∷ leaf ∷ [];
  data_ = text "0x";
  block_number = some (to_block_quantity block);
  transaction_hash = none;
  log_index = some (text "0x0");
}

abbrev logs_of : ℕ → List RawRootAcceptedRpcLog
logs_of block = log_at block ∷ []

-- The node.
abbrev block_number : Result Text Text
block_number = ok (text "0x5")

abbrev get_logs : LogFilter → Result Text (List RawRootAcceptedRpcLog)
get_logs filter = ok (
    logs_of_blocks logs_of (big_int filter.from_block)
      (suc (big_int filter.to_block) - big_int filter.from_block))

abbrev get_transaction_receipt : Text → Result Text (Option RawTransactionReceipt)
get_transaction_receipt hash = ok none

abbrev decode_event_log : List Text → Text → Result Text DecodedEvent
decode_event_log topics data_ = ok (record {
  event_name = text "RootAccepted";
  args = record { root = leaf; previous_root = leaf; inserted_commitment = leaf };
})

abbrev runtime : Runtime
runtime = record { is_mainnet = true; pool = pool; pool_deployment_block = text "0x2" }

abbrev pages_of_two : FetchInput
pages_of_two = record { from_block = none; to_block = none; log_chunk_size = some (int (pos 1)) }

served :
    (first n : ℕ)
    → get_logs (filter_of topic pool first (first + n)) ≡ ok (logs_of_blocks logs_of first (suc n))
served first n =
    let counts : suc (first + n) - first ≡ suc n = omega arith in
    rw (big_int-to_block_quantity first, big_int-to_block_quantity (first + n), counts) refl

four_blocks :
    fetch_root_accepted_logs topic block_number get_logs runtime pages_of_two
    ≡ ok (
        logs_of_blocks logs_of
          (big_int (text "0x2"))
          (suc (big_int (text "0x5")) - big_int (text "0x2")))
unfolding chunk_size_of is_block_quantity
four_blocks =
    fetch_root_accepted_logs-blocks topic block_number get_logs runtime pages_of_two logs_of served
      1 (text "0x5") refl refl refl refl refl

four_blocks-ends :
    fetch_root_accepted_logs topic block_number get_logs runtime pages_of_two ≢ err out_of_fuel
four_blocks-ends = fetch_root_accepted_logs-ends topic block_number get_logs runtime pages_of_two

abbrev hinted_input : RecoveryInput
hinted_input = record {
  runtime = runtime;
  commitment = leaf;
  tx_hash_hint = none;
  block_number_hint = some (text "0x3");
  leaf_index_hint = some (int (pos 0));
  to_block = none;
  min_confirmations = some (int (pos 1));
  log_chunk_size = none;
}

abbrev hinted_logs : RecoveredLogs
hinted_logs = record {
  source = hint;
  logs = log_at 2 ∷ log_at 3 ∷ [];
  to_block = text "0x3";
  hint_rejected_reason = [];
}

hinted_run :
    fetch_recovery_hinted_root_accepted_logs topic block_number
      (λ source. get_logs)
      get_transaction_receipt
      decode_event_log
      hinted_input
    ≡ ok hinted_logs
unfolding fetch_recovery_hinted_root_accepted_logs
hinted_run = refl

hinted_run-IsRecovered :
    IsFinal block_number (text "0x3") none (some (int (pos 1))) true
    × IsRecovered topic block_number
        (λ source. get_logs)
        get_transaction_receipt
        decode_event_log
        hinted_input
        leaf
        hinted_logs
hinted_run-IsRecovered =
    fetch_recovery_hinted_root_accepted_logs-IsRecovered topic block_number (λ source. get_logs)
      get_transaction_receipt decode_event_log hinted_input hinted_logs hinted_run

-- Two different logs at one position are refused.
ambiguous :
    normalize_root_accepted_logs (log_at 2 ∷ record (log_at 2) { data_ = text "0x00" } ∷ [])
    ≡ err ambiguous_position
unfolding normalize_root_accepted_logs to_block_quantity
ambiguous = refl
