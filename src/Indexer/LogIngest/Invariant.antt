-- ===== src/Indexer/LogIngest/Invariant.antt =====
-- services/indexer/src/logIngest.ts: a whole call keeps the state consistent.
use nullark.Prelude.{
  true, Option, List, [], ◌∷◌, ◌≡◌, refl, sym, ◌∙◌, inl, inr, Bool-cases, Option-cases,
  Result-cases, ok-injective, ltb, ltb→le, ok, err,
}
use mathlib.Core.Path.{subst}
use nullark.Prelude.Text.{Text, text_eq, to_lower_case}
use nullark.Prelude.Map.{text_key}
use nullark.Indexer.Ranges.{
  BlockRange, RangeTracker, RangeError, invalid_checked_block_range, IsRange, IsMerged,
  mark_checked_range,
}
use nullark.Indexer.Ranges.Merge.{mark_checked_range-IsMerged}
use nullark.Indexer.LogIngest.Consistent.{IsConsistent, and_then-keeps, ingest_event-IsConsistent}
use nullark.Indexer.LogIngest.{
  PoolEvent, RawPoolLog, IndexerState, IngestInput, marked, ingest_log, ingest_logs,
  ingest_pool_logs,
}

refused :
    (tracker : RangeTracker) (range : BlockRange)
    → ltb range.to_block range.from_block ≡ true
    → mark_checked_range tracker range ≡ err invalid_checked_block_range
unfolding mark_checked_range
refused tracker range h = rw h refl

mark_checked_range-in_form :
    (tracker after : RangeTracker) (range : BlockRange)
    → IsMerged tracker.checked_ranges
    → mark_checked_range tracker range ≡ ok after
    → IsMerged after.checked_ranges
mark_checked_range-in_form tracker after range m h =
    elim (Bool-cases (ltb range.to_block range.from_block)) [
      | inl backwards ↦ cc (h, refused tracker range backwards)
      | inr proper ↦
          let is_range : IsRange range = ltb→le _ _ proper in
          let (same, done, in_form) = mark_checked_range-IsMerged tracker range m is_range in
          subst (λ t. IsMerged t.checked_ranges) (ok-injective {E = RangeError} (sym done ∙ h))
            in_form
    ]

module _ (decode_event_log : Text → List Text → Option PoolEvent) where
  ingest_log-IsConsistent :
      (input : IngestInput) (log : RawPoolLog) (s : IndexerState)
      → IsConsistent s
      → IsConsistent (ingest_log decode_event_log input log s).0
  unfolding ingest_log
  ingest_log-IsConsistent input log s c =
      elim (Bool-cases (text_eq (to_lower_case log.address) (to_lower_case input.pool))) [
        | inr elsewhere ↦ rw elsewhere c
        | inl ours ↦ elim (Option-cases (decode_event_log log.payload log.topics)) [
          | inl unknown ↦ rw (ours, unknown) c
          | inr (event, decoded) ↦
              rw (ours, decoded) (ingest_event-IsConsistent input log event s c)
        ]
      ]

  ingest_logs-IsConsistent :
      (input : IngestInput) (logs : List RawPoolLog) (s : IndexerState)
      → IsConsistent s
      → IsConsistent (ingest_logs decode_event_log input logs s).0
  unfolding ingest_logs
  ingest_logs-IsConsistent input [] s c = c
  ingest_logs-IsConsistent input (log ∷ rest) s c =
      and_then-keeps IsConsistent (ingest_log decode_event_log input log s) _
        (ingest_log-IsConsistent input log s c) (λ t d. ingest_logs-IsConsistent input rest t d)

  marked-IsConsistent :
      (s : IndexerState) (range : BlockRange)
      → IsConsistent s
      → IsConsistent (marked s (mark_checked_range s.ranges range)).0
  marked-IsConsistent s range c = elim (Result-cases (mark_checked_range s.ranges range)) [
    | inr (e, refused) ↦ rw refused c
    | inl (after, done) ↦ rw done (record {
      apart = c.apart;
      rooted = c.rooted;
      expired = c.expired;
      spent = c.spent;
      paths = c.paths;
      notes = c.notes;
      merged = mark_checked_range-in_form s.ranges after range c.merged done;
    })
  ]

  -- Whatever the logs are and however they decode, ingestion keeps the state consistent, also where it
  -- throws: no root is accepted and expired at once, each record stands under its root or nullifier in
  -- small letters, the paths are valid, the notes are hexadecimal, and the ranges are merged.
  pub ingest_pool_logs-IsConsistent :
      (input : IngestInput) (s : IndexerState)
      → IsConsistent s
      → IsConsistent (ingest_pool_logs decode_event_log input s).0
  unfolding ingest_pool_logs
  ingest_pool_logs-IsConsistent input s c =
      and_then-keeps IsConsistent (ingest_logs decode_event_log input input.logs s) _
        (ingest_logs-IsConsistent input input.logs s c)
        (λ t d. marked-IsConsistent t input.checked_range d)
