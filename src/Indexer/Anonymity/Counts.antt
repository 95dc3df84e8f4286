-- ===== src/Indexer/Anonymity/Counts.antt =====
-- The summary counts, whatever the order of the events.
use nullark.Prelude.{ℕ, ◌+◌, ◌≡◌, refl, List, [], ◌∷◌, arith}
use nullark.Indexer.Anonymity.{
  AnonymityEvent, deposit, private_transfer, nullifier, withdrawal, other_event,
  AnonymitySetSummary, EventCounts, count_event, count_events, compute_anonymity_set_summary,
  to_ui_anonymity_summary,
}

-- How many of the events are counted by a weight.
unfoldable pub total : (AnonymityEvent → ℕ) → List AnonymityEvent → ℕ
total weight [] = 0
total weight (event ∷ events) = weight event + total weight events

abbrev pub is_deposit : AnonymityEvent → ℕ
is_deposit deposit = 1
is_deposit _ = 0

abbrev pub is_commitment : AnonymityEvent → ℕ
is_commitment deposit = 1
is_commitment private_transfer = 1
is_commitment _ = 0

abbrev pub is_nullifier : AnonymityEvent → ℕ
is_nullifier nullifier = 1
is_nullifier _ = 0

abbrev pub is_withdrawal : AnonymityEvent → ℕ
is_withdrawal withdrawal = 1
is_withdrawal _ = 0

-- The counts of the loop add to those it starts with.
record Adds (before after : EventCounts) (events : List AnonymityEvent) : Type 0 where
  deposits_add : after.deposits ≡ before.deposits + total is_deposit events
  commitments_add :
      after.deposits + after.private_transfers
      ≡ before.deposits + before.private_transfers + total is_commitment events
  nullifiers_add : after.nullifiers ≡ before.nullifiers + total is_nullifier events
  withdrawals_add : after.withdrawals ≡ before.withdrawals + total is_withdrawal events

count_event-Adds :
    (counts after : EventCounts) (event : AnonymityEvent) (events : List AnonymityEvent)
    → Adds (count_event counts event) after events
    → Adds counts after (event ∷ events)
unfolding count_event total
count_event-Adds counts after deposit events a = record {
  deposits_add = omega (arith, a.deposits_add);
  commitments_add = omega (arith, a.commitments_add);
  nullifiers_add = omega (arith, a.nullifiers_add);
  withdrawals_add = omega (arith, a.withdrawals_add);
}
count_event-Adds counts after private_transfer events a = record {
  deposits_add = omega (arith, a.deposits_add);
  commitments_add = omega (arith, a.commitments_add);
  nullifiers_add = omega (arith, a.nullifiers_add);
  withdrawals_add = omega (arith, a.withdrawals_add);
}
count_event-Adds counts after nullifier events a = record {
  deposits_add = omega (arith, a.deposits_add);
  commitments_add = omega (arith, a.commitments_add);
  nullifiers_add = omega (arith, a.nullifiers_add);
  withdrawals_add = omega (arith, a.withdrawals_add);
}
count_event-Adds counts after withdrawal events a = record {
  deposits_add = omega (arith, a.deposits_add);
  commitments_add = omega (arith, a.commitments_add);
  nullifiers_add = omega (arith, a.nullifiers_add);
  withdrawals_add = omega (arith, a.withdrawals_add);
}
count_event-Adds counts after other_event events a = record {
  deposits_add = omega (arith, a.deposits_add);
  commitments_add = omega (arith, a.commitments_add);
  nullifiers_add = omega (arith, a.nullifiers_add);
  withdrawals_add = omega (arith, a.withdrawals_add);
}

count_events-Adds :
    (counts : EventCounts) (events : List AnonymityEvent)
    → Adds counts (count_events counts events) events
unfolding count_events total
count_events-Adds counts [] = record {
  deposits_add = omega arith;
  commitments_add = omega arith;
  nullifiers_add = omega arith;
  withdrawals_add = omega arith;
}
count_events-Adds counts (event ∷ events) =
    count_event-Adds counts _ event events (count_events-Adds (count_event counts event) events)

-- What a summary says of the events.
pub record IsSummary (events : List AnonymityEvent) (summary : AnonymitySetSummary) : Type 0 where
  pub eligible : summary.eligible_commitment_count ≡ total is_commitment events
  pub deposited : summary.deposit_commitment_count ≡ total is_deposit events
  pub parts :
      summary.deposit_commitment_count + summary.private_transfer_commitment_count
      ≡ summary.eligible_commitment_count
  pub spent : summary.spent_nullifier_count ≡ total is_nullifier events
  pub withdrawn : summary.withdrawal_count ≡ total is_withdrawal events
  pub shown :
      (to_ui_anonymity_summary summary).eligible_commitment_count ≡ total is_commitment events

-- The summary counts the deposits, the nullifiers and the withdrawals among the events, and as
-- eligible the deposits and the private transfers; the interface shows the eligible ones.
pub compute_anonymity_set_summary-IsSummary :
    (events : List AnonymityEvent) → IsSummary events (compute_anonymity_set_summary events)
unfolding compute_anonymity_set_summary to_ui_anonymity_summary
compute_anonymity_set_summary-IsSummary events =
    let a =
      count_events-Adds
        (record { deposits = 0; private_transfers = 0; nullifiers = 0; withdrawals = 0 }) events in
    record {
      eligible = omega (arith, a.commitments_add);
      deposited = omega (arith, a.deposits_add);
      parts = refl;
      spent = omega (arith, a.nullifiers_add);
      withdrawn = omega (arith, a.withdrawals_add);
      shown = omega (arith, a.commitments_add);
    }
