-- ===== src/Indexer/LogIngest/Examples.antt =====
-- Runs of the ingestion, with a decoder that tells events apart by the payload.
use nullark.Prelude.{ℕ, ◌≡◌, refl, Option, none, some, List, [], ◌∷◌, ok, if◌then◌else◌}
use nullark.Prelude.Text.{Text, text, text_eq}
use nullark.Prelude.Map.{get, text_key}
use nullark.Indexer.Ranges.{mark_checked_range}
use nullark.Indexer.LogIngest.{
  PoolEvent, RawPoolLog, IndexerState, IngestError, IngestInput, create_indexer_state, ingest_logs,
  ingest_pool_logs, root_accepted, root_expired, nullifier_spent, deposit_note_created, note_error,
}
use nullark.Indexer.EncryptedNotes.{payload_must_be_even_length_hex}
use nullark.Indexer.LogIngest.Consistent.{IsConsistent}
use nullark.Indexer.LogIngest.Invariant.{ingest_pool_logs-IsConsistent}
use nullark.Indexer.LogIngest.Roots.{or_else, root_status, last_status, ingest_pool_logs-status}
use nullark.Indexer.LogIngest.Effects.{ingest_pool_logs-ranges}

abbrev decode : Text → List Text → Option PoolEvent
decode payload topics =
    if text_eq payload (text "accept")
    then some (root_accepted (text "0xAB") (text "0x00") (text "0x01"))
    else if text_eq payload (text "expire")
    then some (root_expired (text "0xab"))
    else if text_eq payload (text "spend")
    then some (nullifier_spent (text "0xF1"))
    else if text_eq payload (text "bad note")
    then some (deposit_note_created (text "0x01") 0 (text "0x123") 1)
    else none

abbrev log_of : Text → ℕ → RawPoolLog
log_of payload i = record {
  address = text "0xA1";
  topics = [];
  payload = payload;
  block_number = 10;
  transaction_hash = text "0x77";
  log_index = i;
}

abbrev input_of : List RawPoolLog → IngestInput
input_of logs = record {
  chain_id = 1;
  pool = text "0xa1";
  source_rpc = text "rpc";
  observed_at_ms = 5;
  logs = logs;
  checked_range = record { from_block = 10; to_block = 20 };
}

abbrev start : IndexerState
start = create_indexer_state none

start-IsConsistent : IsConsistent start
unfolding create_indexer_state get
start-IsConsistent = record {
  apart = λ key r e p q. cc;
  rooted = λ key r p. cc;
  expired = λ key r p. cc;
  spent = λ key r p. cc;
  paths = λ index p. cc;
  notes = tt;
  merged = record { proper = tt; apart = tt };
}

abbrev expiring : IngestInput
expiring =
    input_of (log_of (text "accept") 0 ∷ log_of (text "spend") 1 ∷ log_of (text "expire") 2 ∷ [])

abbrev broken : IngestInput
broken = input_of (log_of (text "accept") 0 ∷ log_of (text "bad note") 1 ∷ [])

expiring_lem :
    ingest_pool_logs decode expiring start ≡ ((ingest_pool_logs decode expiring start).0, none)
unfolding ingest_pool_logs create_indexer_state
expiring_lem = refl

broken_throws :
    (ingest_pool_logs decode broken start).1 ≡ some (note_error payload_must_be_even_length_hex)
unfolding ingest_pool_logs create_indexer_state
broken_throws = refl

broken-IsConsistent : IsConsistent (ingest_pool_logs decode broken start).0
broken-IsConsistent = ingest_pool_logs-IsConsistent decode broken start start-IsConsistent

expired_root_status :
    root_status (ingest_pool_logs decode expiring start).0 (text "0xab")
    ≡ or_else
        (last_status decode (text "0xa1") expiring.logs (text "0xab"))
        (root_status start (text "0xab"))
expired_root_status =
    ingest_pool_logs-status decode expiring start (ingest_pool_logs decode expiring start).0
      (text "0xab") expiring_lem

broken_keeps_ranges :
    let o = ingest_pool_logs decode broken start in
    (o.1 ≡ none
      → ((ingest_logs decode broken broken.logs start).1 ≡ none)
        × (mark_checked_range start.ranges broken.checked_range ≡ ok o.0.ranges))
    × ((e : IngestError) → o.1 ≡ some e → o.0.ranges ≡ start.ranges)
broken_keeps_ranges = ingest_pool_logs-ranges decode broken start
