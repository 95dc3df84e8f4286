-- ===== src/Indexer/Anonymity.antt =====
-- services/indexer/src/anonymity.ts: the counts of the anonymity set. An event is read through its
-- kind alone.
pub mod Counts
mod Examples
use nullark.Prelude.{ℕ, zero, ◌+◌, Bool, false, List, [], ◌∷◌}

-- The kinds that the loop tells apart, and all others.
pub data AnonymityEvent : Type 0 where
  deposit private_transfer nullifier withdrawal other_event : AnonymityEvent

pub record AnonymitySetSummary : Type 0 where
  pub eligible_commitment_count : ℕ
  pub deposit_commitment_count : ℕ
  pub private_transfer_commitment_count : ℕ
  pub spent_nullifier_count : ℕ
  pub withdrawal_count : ℕ
  pub authoritative_for_balance : Bool

pub record UiAnonymitySummary : Type 0 where
  pub eligible_commitment_count : ℕ
  pub authoritative_for_balance : Bool

-- The variables of the loop.
pub record EventCounts : Type 0 where
  pub deposits : ℕ
  pub private_transfers : ℕ
  pub nullifiers : ℕ
  pub withdrawals : ℕ

unfoldable pub count_event : EventCounts → AnonymityEvent → EventCounts
count_event counts deposit = record counts { deposits = counts.deposits + 1 }
count_event counts private_transfer = record counts {
  private_transfers = counts.private_transfers + 1;
}
count_event counts nullifier = record counts { nullifiers = counts.nullifiers + 1 }
count_event counts withdrawal = record counts { withdrawals = counts.withdrawals + 1 }
count_event counts other_event = counts

unfoldable pub count_events : EventCounts → List AnonymityEvent → EventCounts
unfolding count_event
count_events counts [] = counts
count_events counts (event ∷ events) = count_events (count_event counts event) events

unfoldable pub compute_anonymity_set_summary : List AnonymityEvent → AnonymitySetSummary
unfolding count_events
compute_anonymity_set_summary events =
    let counts =
      count_events (record { deposits = 0; private_transfers = 0; nullifiers = 0; withdrawals = 0 })
        events in
    record {
      eligible_commitment_count = counts.deposits + counts.private_transfers;
      deposit_commitment_count = counts.deposits;
      private_transfer_commitment_count = counts.private_transfers;
      spent_nullifier_count = counts.nullifiers;
      withdrawal_count = counts.withdrawals;
      authoritative_for_balance = false;
    }

unfoldable pub to_ui_anonymity_summary : AnonymitySetSummary → UiAnonymitySummary
to_ui_anonymity_summary summary = record {
  eligible_commitment_count = summary.eligible_commitment_count;
  authoritative_for_balance = false;
}
