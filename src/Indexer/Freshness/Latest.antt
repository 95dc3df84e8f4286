-- ===== src/Indexer/Freshness/Latest.antt =====
-- After any run of observations the tracker holds, for each type, the last one of that type.

use nullark.Prelude.{
  ℕ, zero, suc, ◌≡◌, ◌≢◌, refl, sym, ap, ◌∙◌, inl, inr, Bool, true, false, Option, some, List, [],
  ◌∷◌, ◌++◌, ◌==◌, ==_iff, Bool-cases, All, if◌then◌else◌,
}
use nullark.Prelude.Int.{◌+ℤ◌, int_laws}
use nullark.Indexer.Freshness.{
  FreshnessEventType, deposit_note, root_event, nullifier_event, change_note, output_note,
  FreshnessObservation, FreshnessMetric, FreshnessTracker, metric_of, put_metric,
  observe_event_latency,
}

abbrev rank : FreshnessEventType → ℕ
rank deposit_note = 0
rank root_event = 1
rank nullifier_event = 2
rank change_note = 3
rank output_note = 4

of_rank : ℕ → FreshnessEventType
of_rank zero = deposit_note
of_rank (suc zero) = root_event
of_rank (suc (suc zero)) = nullifier_event
of_rank (suc (suc (suc zero))) = change_note
of_rank _ = output_note

of_rank-rank : (type : FreshnessEventType) → of_rank (rank type) ≡ type
unfolding of_rank
of_rank-rank deposit_note = refl
of_rank-rank root_event = refl
of_rank-rank nullifier_event = refl
of_rank-rank change_note = refl
of_rank-rank output_note = refl

abbrev same_type : FreshnessEventType → FreshnessEventType → Bool
same_type a b = rank a == rank b

same_type-eq : (a b : FreshnessEventType) → same_type a b ≡ true → a ≡ b
same_type-eq a b h =
    sym (of_rank-rank a) ∙ ap of_rank ((==_iff (rank a) (rank b)).0 h) ∙ of_rank-rank b

same_type-ne : (a b : FreshnessEventType) → same_type a b ≡ false → a ≢ b
same_type-ne a b h e = let same = (==_iff (rank a) (rank b)).1 (ap rank e) in cc

-- The field of a type of event.
abbrev pub latest_of : FreshnessEventType → FreshnessTracker → Option FreshnessMetric
latest_of deposit_note tracker = tracker.latest_deposit_note
latest_of root_event tracker = tracker.latest_root
latest_of nullifier_event tracker = tracker.latest_nullifier
latest_of change_note tracker = tracker.latest_change_note
latest_of output_note tracker = tracker.latest_output_note

-- Observations one after the other.
unfoldable pub observe_all : FreshnessTracker → List FreshnessObservation → FreshnessTracker
observe_all tracker [] = tracker
observe_all tracker (observation ∷ rest) =
    observe_all (observe_event_latency tracker observation) rest

-- A metric is that of an observation: the latency is the time from the submission of the transaction to
-- the event, below zero where the event was seen first.
pub record IsMetricOf (observation : FreshnessObservation) (metric : FreshnessMetric) : Type 0 where
  pub from_submission :
      observation.transaction_submitted_at_ms +ℤ metric.latency_ms
      ≡ observation.event_observed_at_ms
  pub same_block : metric.block_number ≡ observation.block_number
  pub same_time : metric.observed_at_ms ≡ observation.event_observed_at_ms

abbrev pub OfOtherType : FreshnessEventType → FreshnessObservation → Type 0
OfOtherType type observation = observation.event_type ≢ type

-- The metric of the last observation of a type, or what was there where none is of that type.
pub data IsLatest (type : FreshnessEventType) (found : Option FreshnessMetric)
    (observations : List FreshnessObservation) (latest : Option FreshnessMetric) : Type 0 where
  kept :
      All (OfOtherType type) observations → latest ≡ found → IsLatest type found observations latest
  last :
      (before : List FreshnessObservation) (observation : FreshnessObservation)
      (after : List FreshnessObservation) (metric : FreshnessMetric)
      → observations ≡ before ++ observation ∷ after
      → observation.event_type ≡ type
      → All (OfOtherType type) after
      → IsMetricOf observation metric
      → latest ≡ some metric
      → IsLatest type found observations latest

metric_of-IsMetricOf :
    (observation : FreshnessObservation) → IsMetricOf observation (metric_of observation)
unfolding metric_of
metric_of-IsMetricOf observation = record {
  from_submission = omega int_laws;
  same_block = refl;
  same_time = refl;
}

put_metric-latest :
    (of type : FreshnessEventType) (metric : FreshnessMetric) (tracker : FreshnessTracker)
    → latest_of type (put_metric of metric tracker)
      ≡ (if same_type of type then some metric else latest_of type tracker)
unfolding put_metric
put_metric-latest deposit_note deposit_note metric tracker = refl
put_metric-latest deposit_note root_event metric tracker = refl
put_metric-latest deposit_note nullifier_event metric tracker = refl
put_metric-latest deposit_note change_note metric tracker = refl
put_metric-latest deposit_note output_note metric tracker = refl
put_metric-latest root_event deposit_note metric tracker = refl
put_metric-latest root_event root_event metric tracker = refl
put_metric-latest root_event nullifier_event metric tracker = refl
put_metric-latest root_event change_note metric tracker = refl
put_metric-latest root_event output_note metric tracker = refl
put_metric-latest nullifier_event deposit_note metric tracker = refl
put_metric-latest nullifier_event root_event metric tracker = refl
put_metric-latest nullifier_event nullifier_event metric tracker = refl
put_metric-latest nullifier_event change_note metric tracker = refl
put_metric-latest nullifier_event output_note metric tracker = refl
put_metric-latest change_note deposit_note metric tracker = refl
put_metric-latest change_note root_event metric tracker = refl
put_metric-latest change_note nullifier_event metric tracker = refl
put_metric-latest change_note change_note metric tracker = refl
put_metric-latest change_note output_note metric tracker = refl
put_metric-latest output_note deposit_note metric tracker = refl
put_metric-latest output_note root_event metric tracker = refl
put_metric-latest output_note nullifier_event metric tracker = refl
put_metric-latest output_note change_note metric tracker = refl
put_metric-latest output_note output_note metric tracker = refl

-- One more observation, ahead of a run.
ahead :
    (type : FreshnessEventType) (tracker : FreshnessTracker) (o : FreshnessObservation)
    (rest : List FreshnessObservation) (latest : Option FreshnessMetric)
    → IsLatest type (latest_of type (observe_event_latency tracker o)) rest latest
    → IsLatest type (latest_of type tracker) (o ∷ rest) latest
unfolding observe_event_latency
ahead type tracker o rest latest (last before p after metric e t a m l) =
    last (o ∷ before) p after metric (ap (λ run. o ∷ run) e) t a m l
ahead type tracker o rest latest (kept a l) =
    let put = l ∙ put_metric-latest o.event_type type (metric_of o) tracker in
    elim (Bool-cases (same_type o.event_type type)) [
      | inl e ↦
          last [] o rest (metric_of o) refl (same_type-eq o.event_type type e) a
            (metric_of-IsMetricOf o) (rw e at put)
      | inr e ↦ kept (same_type-ne o.event_type type e, a) (rw e at put)
    ]

-- After any run of observations the field of a type holds the metric of the last observation of that
-- type, whose latency is the time from the submission to the event, and what it held before where no
-- observation is of that type.
pub observe_all-IsLatest :
    (tracker : FreshnessTracker) (observations : List FreshnessObservation)
    (type : FreshnessEventType)
    → IsLatest type
        (latest_of type tracker)
        observations
        (latest_of type (observe_all tracker observations))
unfolding observe_all
observe_all-IsLatest tracker [] type = kept tt refl
observe_all-IsLatest tracker (o ∷ rest) type =
    ahead type tracker o rest _ (observe_all-IsLatest (observe_event_latency tracker o) rest type)
