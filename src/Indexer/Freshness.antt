-- ===== src/Indexer/Freshness.antt =====
-- services/indexer/src/freshness.ts: the latest observation of each type of event. Times are whole
-- milliseconds, and a latency may be negative.
pub mod Latest
mod Examples
use nullark.Prelude.{ℕ, Option, none, some, List, [], ◌∷◌}
use nullark.Prelude.Int.{ℤ, ◌-ℤ◌}

pub data FreshnessEventType : Type 0 where
  deposit_note root_event nullifier_event change_note output_note : FreshnessEventType

pub record FreshnessObservation : Type 0 where
  pub event_type : FreshnessEventType
  pub transaction_submitted_at_ms : ℤ
  pub event_observed_at_ms : ℤ
  pub block_number : ℕ

pub record FreshnessMetric : Type 0 where
  pub latency_ms : ℤ
  pub block_number : ℕ
  pub observed_at_ms : ℤ

-- The fields of `latest`.
pub record FreshnessTracker : Type 0 where
  pub latest_deposit_note : Option FreshnessMetric
  pub latest_root : Option FreshnessMetric
  pub latest_nullifier : Option FreshnessMetric
  pub latest_change_note : Option FreshnessMetric
  pub latest_output_note : Option FreshnessMetric

abbrev pub create_freshness_tracker : FreshnessTracker
create_freshness_tracker = record {
  latest_deposit_note = none;
  latest_root = none;
  latest_nullifier = none;
  latest_change_note = none;
  latest_output_note = none;
}

unfoldable pub metric_of : FreshnessObservation → FreshnessMetric
metric_of observation = record {
  latency_ms = observation.event_observed_at_ms -ℤ observation.transaction_submitted_at_ms;
  block_number = observation.block_number;
  observed_at_ms = observation.event_observed_at_ms;
}

-- The chain of tests on the type of the event.
unfoldable pub put_metric :
    FreshnessEventType → FreshnessMetric → FreshnessTracker → FreshnessTracker
put_metric deposit_note metric tracker = record tracker { latest_deposit_note = some metric }
put_metric root_event metric tracker = record tracker { latest_root = some metric }
put_metric nullifier_event metric tracker = record tracker { latest_nullifier = some metric }
put_metric output_note metric tracker = record tracker { latest_output_note = some metric }
put_metric change_note metric tracker = record tracker { latest_change_note = some metric }

unfoldable pub observe_event_latency : FreshnessTracker → FreshnessObservation → FreshnessTracker
unfolding metric_of put_metric
observe_event_latency tracker observation =
    put_metric observation.event_type (metric_of observation) tracker
