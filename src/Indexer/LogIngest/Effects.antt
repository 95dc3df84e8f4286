-- ===== src/Indexer/LogIngest/Effects.antt =====
-- services/indexer/src/logIngest.ts: a range counts as checked only once all its logs are ingested.
use nullark.Prelude.{
  Option, none, some, List, [], ◌∷◌, ◌≡◌, refl, sym, ap, ◌∙◌, inl, inr, Bool-cases, Option-cases,
  Result, ok, err,
}
use nullark.Prelude.Text.{Text, text_eq, to_lower_case}
use nullark.Prelude.Map.{text_key}
use nullark.Indexer.Ranges.{BlockRange, RangeTracker, RangeError, mark_checked_range}
use nullark.Indexer.EncryptedNotes.{deposit, private_transfer, withdraw_change, withdraw_output}
use nullark.Indexer.LogIngest.Consistent.{and_then-keeps}
use nullark.Indexer.LogIngest.Unchanged.{SameRoots-note}
use nullark.Indexer.LogIngest.{
  PoolEvent, RawPoolLog, IndexerState, IngestError, IngestInput, Outcome, and_then, marked,
  note_record, ingest_event, ingest_log, ingest_logs, ingest_pool_logs, deposit_note_created,
  private_transfer_note_created, withdrawal_change_note_created, withdrawal_output_note_created,
  root_accepted, root_expired, nullifier_spent,
}

abbrev SameRanges : IndexerState → IndexerState → Type 0
SameRanges s t = t.ranges ≡ s.ranges

SameRanges-event :
    (input : IngestInput) (log : RawPoolLog) (event : PoolEvent) (s : IndexerState)
    → SameRanges s (ingest_event input log event s).0
unfolding ingest_event
SameRanges-event input log (deposit_note_created c i n v) s =
    (SameRoots-note (note_record input log deposit c none i n v) s).same_ranges
SameRanges-event input log (private_transfer_note_created c f i n v) s =
    (SameRoots-note (note_record input log private_transfer c (some f) i n v) s).same_ranges
SameRanges-event input log (withdrawal_change_note_created c f i g n v) s =
    (SameRoots-note (note_record input log withdraw_change c (some f) i n v) s).same_ranges
SameRanges-event input log (withdrawal_output_note_created c f i g n v) s =
    (SameRoots-note (note_record input log withdraw_output c (some f) i n v) s).same_ranges
SameRanges-event input log (root_accepted root previous leaf) s = refl
SameRanges-event input log (root_expired root) s = refl
SameRanges-event input log (nullifier_spent n) s = refl

-- The range is marked, or the error is that of the marking.
marked-ranges :
    (s : IndexerState) (r : Result RangeError RangeTracker)
    → ((marked s r).1 ≡ none → r ≡ ok (marked s r).0.ranges)
      × ((e : IngestError) → (marked s r).1 ≡ some e → (marked s r).0 ≡ s)
marked-ranges s (ok tracker) = (λ h. refl, λ e h. cc)
marked-ranges s (err e) = (λ h. cc, λ e h. refl)

module _ (decode_event_log : Text → List Text → Option PoolEvent) where
  SameRanges-log :
      (input : IngestInput) (log : RawPoolLog) (s : IndexerState)
      → SameRanges s (ingest_log decode_event_log input log s).0
  unfolding ingest_log
  SameRanges-log input log s =
      elim (Bool-cases (text_eq (to_lower_case log.address) (to_lower_case input.pool))) [
        | inr elsewhere ↦ rw elsewhere refl
        | inl ours ↦ elim (Option-cases (decode_event_log log.payload log.topics)) [
          | inl unknown ↦ rw (ours, unknown) refl
          | inr (event, decoded) ↦ rw (ours, decoded) (SameRanges-event input log event s)
        ]
      ]

  SameRanges-logs :
      (input : IngestInput) (logs : List RawPoolLog) (r s : IndexerState)
      → SameRanges r s
      → SameRanges r (ingest_logs decode_event_log input logs s).0
  unfolding ingest_logs
  SameRanges-logs input [] r s h = h
  SameRanges-logs input (log ∷ rest) r s h =
      and_then-keeps (SameRanges r) (ingest_log decode_event_log input log s) _
        (SameRanges-log input log s ∙ h) (λ t k. SameRanges-logs input rest r t k)

  finish-ranges :
      (first : Outcome) (range : BlockRange)
      → let o = and_then first (λ t. marked t (mark_checked_range t.ranges range)) in
        (o.1 ≡ none → (first.1 ≡ none) × (mark_checked_range first.0.ranges range ≡ ok o.0.ranges))
        × ((e : IngestError) → o.1 ≡ some e → o.0.ranges ≡ first.0.ranges)
  finish-ranges (s, some e) range = (λ h. cc, λ e h. refl)
  finish-ranges (s, none) range =
      let m = marked-ranges s (mark_checked_range s.ranges range) in
      (λ h. (refl, m.0 h), λ e h. ap (λ t. t.ranges) (m.1 e h))

  -- An ingestion that throws nothing has ingested all its logs and marked its range. One that throws,
  -- at a log or at the range, leaves the checked ranges as they were.
  pub ingest_pool_logs-ranges :
      (input : IngestInput) (s : IndexerState)
      → let o = ingest_pool_logs decode_event_log input s in
        (o.1 ≡ none
          → ((ingest_logs decode_event_log input input.logs s).1 ≡ none)
            × (mark_checked_range s.ranges input.checked_range ≡ ok o.0.ranges))
        × ((e : IngestError) → o.1 ≡ some e → o.0.ranges ≡ s.ranges)
  unfolding ingest_pool_logs
  ingest_pool_logs-ranges input s =
      let first = ingest_logs decode_event_log input input.logs s in
      let same = SameRanges-logs input input.logs s s refl in
      let o = finish-ranges first input.checked_range in
      (
        λ h. ((o.0 h).0, ap (λ r. mark_checked_range r input.checked_range) (sym same) ∙ (o.0 h).1),
        λ e h. o.1 e h ∙ same,
      )
