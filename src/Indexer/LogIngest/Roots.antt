-- ===== src/Indexer/LogIngest/Roots.antt =====
-- services/indexer/src/logIngest.ts: which roots are accepted and which have expired, by the logs.
use nullark.Prelude.{
  Option, none, some, List, [], ◌∷◌, ◌≡◌, refl, sym, ap, ◌∙◌, inl, inr, arith, Bool-cases,
  Option-cases, if◌then◌else◌, Result, ok, err,
}
use nullark.Prelude.Text.{Text, text_eq, to_lower_case}
use nullark.Prelude.Map.{get, put, delete, text_key, get-put, get-delete}
use nullark.Indexer.Ranges.{RangeTracker, RangeError, mark_checked_range}
use nullark.Indexer.EncryptedNotes.{
  EncryptedNoteEventRecord, deposit, private_transfer, withdraw_change, withdraw_output,
}
use nullark.Indexer.LogIngest.Unchanged.{and_then-done, SameRoots-note}
use nullark.Indexer.LogIngest.{
  PoolEvent, RawPoolLog, RootRecord, RootExpiredRecord, IndexerState, IngestInput, marked,
  note_record, ingest_note, ingest_event, ingest_log, ingest_logs, ingest_pool_logs,
  deposit_note_created, private_transfer_note_created, withdrawal_change_note_created,
  withdrawal_output_note_created, root_accepted, root_expired, nullifier_spent,
}

pub data RootStatus : Type 0 where
  accepted : RootRecord → RootStatus
  expired : RootExpiredRecord → RootStatus

abbrev pub or_else : Option RootStatus → Option RootStatus → Option RootStatus
or_else none other = other
or_else (some status) other = some status

abbrev status_of : Option RootRecord → Option RootExpiredRecord → Option RootStatus
status_of (some r) e = some (accepted r)
status_of none (some e) = some (expired e)
status_of none none = none

-- What the state says of a root, under its key.
abbrev pub root_status : IndexerState → Text → Option RootStatus
root_status s key = status_of (get s.roots key) (get s.expired_roots key)

-- What one event says of it.
abbrev pub event_status : RawPoolLog → PoolEvent → Text → Option RootStatus
event_status log (root_accepted root previous_root inserted_commitment) key =
    if text_eq (to_lower_case root) key
    then some (
        accepted (record {
          root = root;
          previous_root = previous_root;
          inserted_commitment = inserted_commitment;
          block_number = log.block_number;
          transaction_hash = log.transaction_hash;
          log_index = log.log_index;
        }))
    else none
event_status log (root_expired root) key =
    if text_eq (to_lower_case root) key
    then some (
        expired (record {
          root = root;
          block_number = log.block_number;
          transaction_hash = log.transaction_hash;
          log_index = log.log_index;
        }))
    else none
event_status log _ key = none

status-put :
    (roots : List (Text × RootRecord)) (expired_roots : List (Text × RootExpiredRecord))
    (k key : Text) (r : RootRecord)
    → status_of (get (put roots k r) key) (get (delete expired_roots k) key)
      ≡ or_else
          (if text_eq k key then some (accepted r) else none)
          (status_of (get roots key) (get expired_roots key))
status-put roots expired_roots k key r =
    ground (arith, get-put roots k r key, get-delete expired_roots k key)

status-expire :
    (roots : List (Text × RootRecord)) (expired_roots : List (Text × RootExpiredRecord))
    (k key : Text) (e : RootExpiredRecord)
    → status_of (get (delete roots k) key) (get (put expired_roots k e) key)
      ≡ or_else
          (if text_eq k key then some (expired e) else none)
          (status_of (get roots key) (get expired_roots key))
status-expire roots expired_roots k key e =
    ground (arith, get-delete roots k key, get-put expired_roots k e key)

note-status :
    (r : EncryptedNoteEventRecord) (s : IndexerState) (key : Text)
    → root_status (ingest_note r s).0 key ≡ root_status s key
note-status r s key = let same = SameRoots-note r s in rw (same.same_roots, same.same_expired) refl

ingest_event-status :
    (input : IngestInput) (log : RawPoolLog) (event : PoolEvent) (s : IndexerState) (key : Text)
    → root_status (ingest_event input log event s).0 key
      ≡ or_else (event_status log event key) (root_status s key)
unfolding ingest_event
ingest_event-status input log (deposit_note_created c i n v) s key =
    note-status (note_record input log deposit c none i n v) s key
ingest_event-status input log (private_transfer_note_created c f i n v) s key =
    note-status (note_record input log private_transfer c (some f) i n v) s key
ingest_event-status input log (withdrawal_change_note_created c f i g n v) s key =
    note-status (note_record input log withdraw_change c (some f) i n v) s key
ingest_event-status input log (withdrawal_output_note_created c f i g n v) s key =
    note-status (note_record input log withdraw_output c (some f) i n v) s key
ingest_event-status input log (root_accepted root previous leaf) s key =
    status-put s.roots s.expired_roots (to_lower_case root) key _
ingest_event-status input log (root_expired root) s key =
    status-expire s.roots s.expired_roots (to_lower_case root) key _
ingest_event-status input log (nullifier_spent n) s key = refl

marked-status :
    (s t : IndexerState) (r : Result RangeError RangeTracker) (key : Text)
    → marked s r ≡ (t, none)
    → root_status t key ≡ root_status s key
marked-status s t (ok tracker) key h = ap (λ o. root_status o.0 key) (sym h)
marked-status s t (err e) key h = cc (ap (λ o. o.1) h)

or_else_assoc : (a b c : Option RootStatus) → or_else a (or_else b c) ≡ or_else (or_else a b) c
or_else_assoc none b c = refl
or_else_assoc (some a) b c = refl

module _ (decode_event_log : Text → List Text → Option PoolEvent) where
  -- What one log of the pool says of a root, and what the last of the logs that says anything does.
  abbrev decoded_status : RawPoolLog → Option PoolEvent → Text → Option RootStatus
  decoded_status log none key = none
  decoded_status log (some event) key = event_status log event key

  abbrev pub log_status : Text → RawPoolLog → Text → Option RootStatus
  log_status pool log key =
      if text_eq (to_lower_case log.address) (to_lower_case pool)
      then decoded_status log (decode_event_log log.payload log.topics) key
      else none

  pub last_status : Text → List RawPoolLog → Text → Option RootStatus
  last_status pool [] key = none
  last_status pool (log ∷ rest) key = or_else (last_status pool rest key) (log_status pool log key)

  ingest_log-status :
      (input : IngestInput) (log : RawPoolLog) (s : IndexerState) (key : Text)
      → root_status (ingest_log decode_event_log input log s).0 key
        ≡ or_else (log_status input.pool log key) (root_status s key)
  unfolding ingest_log
  ingest_log-status input log s key =
      elim (Bool-cases (text_eq (to_lower_case log.address) (to_lower_case input.pool))) [
        | inr elsewhere ↦ rw elsewhere refl
        | inl ours ↦ elim (Option-cases (decode_event_log log.payload log.topics)) [
          | inl unknown ↦ rw (ours, unknown) refl
          | inr (event, decoded) ↦ rw (ours, decoded) (ingest_event-status input log event s key)
        ]
      ]

  ingest_logs-status :
      (input : IngestInput) (logs : List RawPoolLog) (s t : IndexerState) (key : Text)
      → ingest_logs decode_event_log input logs s ≡ (t, none)
      → root_status t key ≡ or_else (last_status input.pool logs key) (root_status s key)
  unfolding ingest_logs last_status
  ingest_logs-status input [] s t key h = ap (λ o. root_status o.0 key) (sym h)
  ingest_logs-status input (log ∷ rest) s t key h =
      let first = ingest_log decode_event_log input log s in
      ingest_logs-status input rest first.0 t key
        (and_then-done first (λ u. ingest_logs decode_event_log input rest u) t h).1
      ∙ ap (or_else (last_status input.pool rest key)) (ingest_log-status input log s key)
      ∙ or_else_assoc (last_status input.pool rest key) (log_status input.pool log key)
          (root_status s key)

  -- After an ingestion that throws nothing, a root is accepted or expired as the last log of the pool
  -- that names it says, with the record of that log, and as it was before where no log names it.
  pub ingest_pool_logs-status :
      (input : IngestInput) (s t : IndexerState) (key : Text)
      → ingest_pool_logs decode_event_log input s ≡ (t, none)
      → root_status t key ≡ or_else (last_status input.pool input.logs key) (root_status s key)
  unfolding ingest_pool_logs
  ingest_pool_logs-status input s t key h =
      let first = ingest_logs decode_event_log input input.logs s in
      let (done, last) =
        and_then-done first (λ u. marked u (mark_checked_range u.ranges input.checked_range)) t h in
      marked-status first.0 t (mark_checked_range first.0.ranges input.checked_range) key last
      ∙ ingest_logs-status input input.logs s first.0 key done
