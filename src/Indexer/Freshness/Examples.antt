-- ===== src/Indexer/Freshness/Examples.antt =====
-- A run of observations.
use nullark.Prelude.{◌≡◌, refl, some, List, [], ◌∷◌}
use nullark.Prelude.Int.{pos, ◌-ℤ◌}
use nullark.Indexer.Freshness.{
  FreshnessObservation, root_event, change_note, create_freshness_tracker, observe_event_latency,
}
use nullark.Indexer.Freshness.Latest.{latest_of, observe_all, IsLatest, observe_all-IsLatest}

abbrev observed : List FreshnessObservation
observed =
    record {
      event_type = root_event;
      transaction_submitted_at_ms = pos 100;
      event_observed_at_ms = pos 130;
      block_number = 7;
    }
    ∷ record {
      event_type = change_note;
      transaction_submitted_at_ms = pos 200;
      event_observed_at_ms = pos 190;
      block_number = 8;
    }
    ∷ []

observed-IsLatest :
    IsLatest root_event
      (latest_of root_event create_freshness_tracker)
      observed
      (latest_of root_event (observe_all create_freshness_tracker observed))
observed-IsLatest = observe_all-IsLatest create_freshness_tracker observed root_event

root_latency :
    latest_of root_event (observe_all create_freshness_tracker observed)
    ≡ some (record { latency_ms = pos 30; block_number = 7; observed_at_ms = pos 130 })
unfolding observe_all observe_event_latency ◌-ℤ◌
root_latency = refl
