-- ===== src/Indexer/LogIngest.antt =====
-- services/indexer/src/logIngest.ts: the state that the indexer builds from the pool's logs. A handler
-- changes the state in place and may throw after it has changed a part of it, so each one gives the state
-- that it leaves and the error that it throws, if any. `decodeEventLog` is viem's and a parameter; it
-- throws on a log that is none of the table's events.
pub mod Consistent
pub mod Invariant
pub mod Unchanged
pub mod Roots
pub mod Effects
mod Examples
use nullark.Prelude.{
  ℕ, ◌≤◌, ◌<◌, Bool, true, false, not, Option, none, some, List, [], ◌∷◌, ltb, if◌then◌else◌,
  Result, ok, err,
}
use nullark.Prelude.Int.{pos}
use nullark.Prelude.Number.{int, max_safe_integer}
use nullark.Prelude.Text.{Text, text_eq, to_lower_case}
use nullark.Prelude.Map.{get, put, delete, text_key}
use nullark.Indexer.Ranges.{
  BlockRange, RangeTracker, RangeError, create_range_tracker, mark_checked_range,
}
use nullark.Indexer.MerklePaths.{MerklePathIndex, PathError, insert_indexed_commitment}
use nullark.Indexer.EncryptedNotes.{
  EncryptedNoteCache, EncryptedNoteEventRecord, EncryptedNoteEventType, NoteError, deposit,
  private_transfer, withdraw_change, withdraw_output, create_encrypted_note_cache,
  add_encrypted_note_event,
}

-- A decoded event of POOL_EVENT_ABI, with the arguments of the table in their order.
pub data PoolEvent : Type 0 where
  deposit_note_created :
      (commitment : Text) (leaf_index : ℕ) (encrypted_note : Text) (encryption_version : ℕ)
      → PoolEvent
  private_transfer_note_created :
      (commitment nullifier : Text) (leaf_index : ℕ) (encrypted_note : Text)
      (encryption_version : ℕ)
      → PoolEvent
  withdrawal_change_note_created :
      (commitment nullifier : Text) (leaf_index gross_amount : ℕ) (encrypted_note : Text)
      (encryption_version : ℕ)
      → PoolEvent
  withdrawal_output_note_created :
      (commitment nullifier : Text) (leaf_index gross_amount : ℕ) (encrypted_note : Text)
      (encryption_version : ℕ)
      → PoolEvent
  root_accepted : (root previous_root inserted_commitment : Text) → PoolEvent
  root_expired : (root : Text) → PoolEvent
  nullifier_spent : (nullifier : Text) → PoolEvent

pub record RawPoolLog : Type 0 where
  pub address : Text
  pub topics : List Text
  pub payload : Text
  pub block_number : ℕ
  pub transaction_hash : Text
  pub log_index : ℕ

pub record RootRecord : Type 0 where
  pub root : Text
  pub previous_root : Text
  pub inserted_commitment : Text
  pub block_number : ℕ
  pub transaction_hash : Text
  pub log_index : ℕ

pub record NullifierRecord : Type 0 where
  pub nullifier : Text
  pub block_number : ℕ
  pub transaction_hash : Text
  pub log_index : ℕ

pub record RootExpiredRecord : Type 0 where
  pub root : Text
  pub block_number : ℕ
  pub transaction_hash : Text
  pub log_index : ℕ

pub record IndexerState : Type 0 where
  pub encrypted_notes : EncryptedNoteCache
  pub merkle_paths : Option MerklePathIndex
  pub roots : List (Text × RootRecord)
  pub expired_roots : List (Text × RootExpiredRecord)
  pub nullifiers : List (Text × NullifierRecord)
  pub ranges : RangeTracker

pub data IngestError : Type 0 where
  event_not_decoded leaf_index_exceeds_safe_range : IngestError
  path_error : PathError → IngestError
  note_error : NoteError → IngestError
  range_error : RangeError → IngestError

unfoldable pub create_indexer_state : Option MerklePathIndex → IndexerState
create_indexer_state merkle_paths = record {
  encrypted_notes = create_encrypted_note_cache;
  merkle_paths = merkle_paths;
  roots = [];
  expired_roots = [];
  nullifiers = [];
  ranges = create_range_tracker;
}

pub record IngestInput : Type 0 where
  pub chain_id : ℕ
  pub pool : Text
  pub source_rpc : Text
  pub observed_at_ms : ℕ
  pub logs : List RawPoolLog
  pub checked_range : BlockRange

-- The state that a step leaves, and what it throws.
abbrev pub Outcome : Type 0
Outcome = IndexerState × Option IngestError

-- One step after another, the second only where the first throws nothing.
abbrev pub and_then : Outcome → (IndexerState → Outcome) → Outcome
and_then (s, some e) next = (s, some e)
and_then (s, none) next = next s

abbrev pub inserted : IndexerState → Result PathError MerklePathIndex → Outcome
inserted s (ok index) = (record s { merkle_paths = some index }, none)
inserted s (err e) = (s, some (path_error e))

unfoldable pub insert_into_paths : IndexerState → Option MerklePathIndex → Text → ℕ → Outcome
unfolding insert_indexed_commitment
insert_into_paths s none commitment leaf_index = (s, none)
insert_into_paths s (some index) commitment leaf_index =
    if ltb max_safe_integer leaf_index
    then (s, some leaf_index_exceeds_safe_range)
    else inserted s (
        insert_indexed_commitment index
          (record { commitment = commitment; leaf_index = int (pos leaf_index) }))

unfoldable pub insert_accepted_note_commitment : IndexerState → Text → ℕ → Outcome
unfolding insert_into_paths
insert_accepted_note_commitment s commitment leaf_index =
    insert_into_paths s s.merkle_paths commitment leaf_index

abbrev pub noted : IndexerState → Result NoteError EncryptedNoteCache → Outcome
noted s (ok cache) = (record s { encrypted_notes = cache }, none)
noted s (err e) = (s, some (note_error e))

abbrev pub note_record :
    IngestInput
    → RawPoolLog
    → EncryptedNoteEventType
    → Text
    → Option Text
    → ℕ
    → Text
    → ℕ
    → EncryptedNoteEventRecord
note_record input log event_type commitment nullifier leaf_index encrypted_note encryption_version =
    record {
      chain_id = input.chain_id;
      pool = input.pool;
      event_type = event_type;
      commitment = commitment;
      nullifier = nullifier;
      leaf_index = leaf_index;
      encrypted_note = encrypted_note;
      encryption_version = encryption_version;
      block_number = log.block_number;
      transaction_hash = log.transaction_hash;
      log_index = log.log_index;
      observed_at_ms = input.observed_at_ms;
      source_rpc = input.source_rpc;
    }

-- A note: its commitment goes into the tree, and then its record into the cache.
unfoldable pub ingest_note : EncryptedNoteEventRecord → IndexerState → Outcome
unfolding insert_accepted_note_commitment add_encrypted_note_event
ingest_note r s =
    and_then (insert_accepted_note_commitment s r.commitment r.leaf_index)
      (λ t. noted t (add_encrypted_note_event t.encrypted_notes r))

unfoldable pub ingest_event : IngestInput → RawPoolLog → PoolEvent → IndexerState → Outcome
unfolding ingest_note put delete text_eq to_lower_case
ingest_event input log (deposit_note_created c i n v) s =
    ingest_note (note_record input log deposit c none i n v) s
ingest_event input log (private_transfer_note_created c f i n v) s =
    ingest_note (note_record input log private_transfer c (some f) i n v) s
ingest_event input log (withdrawal_change_note_created c f i g n v) s =
    ingest_note (note_record input log withdraw_change c (some f) i n v) s
ingest_event input log (withdrawal_output_note_created c f i g n v) s =
    ingest_note (note_record input log withdraw_output c (some f) i n v) s
ingest_event input log (root_accepted root previous_root inserted_commitment) s =
    let key = to_lower_case root in
    (
      record s {
        expired_roots = delete s.expired_roots key;
        roots = put s.roots key (record {
          root = root;
          previous_root = previous_root;
          inserted_commitment = inserted_commitment;
          block_number = log.block_number;
          transaction_hash = log.transaction_hash;
          log_index = log.log_index;
        });
      },
      none,
    )
ingest_event input log (root_expired root) s =
    let key = to_lower_case root in
    (
      record s {
        roots = delete s.roots key;
        expired_roots = put s.expired_roots key (record {
          root = root;
          block_number = log.block_number;
          transaction_hash = log.transaction_hash;
          log_index = log.log_index;
        });
      },
      none,
    )
ingest_event input log (nullifier_spent nullifier) s = (
  record s {
    nullifiers = put s.nullifiers (to_lower_case nullifier) (record {
      nullifier = nullifier;
      block_number = log.block_number;
      transaction_hash = log.transaction_hash;
      log_index = log.log_index;
    });
  },
  none,
)

abbrev pub marked : IndexerState → Result RangeError RangeTracker → Outcome
marked s (ok tracker) = (record s { ranges = tracker }, none)
marked s (err e) = (s, some (range_error e))

module _ (decode_event_log : Text → List Text → Option PoolEvent) where
  -- The body of the loop: a log of another address is skipped before it is decoded.
  unfoldable pub ingest_log : IngestInput → RawPoolLog → IndexerState → Outcome
  unfolding ingest_event text_eq to_lower_case
  ingest_log input log s =
      if not (text_eq (to_lower_case log.address) (to_lower_case input.pool))
      then (s, none)
      else (elim (decode_event_log log.payload log.topics) [
        | none ↦ (s, some event_not_decoded)
        | some event ↦ ingest_event input log event s
      ])

  unfoldable pub ingest_logs : IngestInput → List RawPoolLog → IndexerState → Outcome
  unfolding ingest_log
  ingest_logs input [] s = (s, none)
  ingest_logs input (log ∷ rest) s =
      and_then (ingest_log input log s) (λ t. ingest_logs input rest t)

  unfoldable pub ingest_pool_logs : IngestInput → IndexerState → Outcome
  unfolding ingest_logs mark_checked_range
  ingest_pool_logs input s =
      and_then (ingest_logs input input.logs s)
        (λ t. marked t (mark_checked_range t.ranges input.checked_range))
