-- ===== src/Indexer/Anonymity/Examples.antt =====
-- A summary of five events.
use nullark.Prelude.{List, [], ◌∷◌}
use nullark.Indexer.Anonymity.{
  AnonymityEvent, deposit, private_transfer, nullifier, other_event, compute_anonymity_set_summary,
}
use nullark.Indexer.Anonymity.Counts.{IsSummary, compute_anonymity_set_summary-IsSummary}

abbrev five_events : List AnonymityEvent
five_events = deposit ∷ nullifier ∷ private_transfer ∷ other_event ∷ deposit ∷ []

five_events-IsSummary : IsSummary five_events (compute_anonymity_set_summary five_events)
five_events-IsSummary = compute_anonymity_set_summary-IsSummary five_events
