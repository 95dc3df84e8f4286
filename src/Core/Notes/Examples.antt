-- ===== src/Core/Notes/Examples.antt =====
-- Runs of the private balance and of the solvency check.
use nullark.Prelude.{◌≡◌, ◌↔◌, refl, true, false, List, [], ◌∷◌}
use nullark.Prelude.Int.{pos, ◌+ℤ◌, ◌≤ℤ◌}
use nullark.Core.Notes.{
  ShieldedNote, PublicPoolAccounting, derive_private_balance, mark_spent, assert_pool_solvent,
}
use nullark.Core.Notes.Balance.{worth_of, mark_spent-balance, assert_pool_solvent_iff}

abbrev wallet : List ShieldedNote
wallet =
    record {
      commitment = "c1";
      nullifier = "n1";
      owner_viewing_key_id = "alice";
      amount = pos 30;
      spent = false;
    }
    ∷ record {
      commitment = "c2";
      nullifier = "n2";
      owner_viewing_key_id = "alice";
      amount = pos 12;
      spent = false;
    }
    ∷ record {
      commitment = "c3";
      nullifier = "n3";
      owner_viewing_key_id = "bob";
      amount = pos 5;
      spent = false;
    }
    ∷ []

balance_42 : derive_private_balance wallet "alice" ≡ pos 42
unfolding derive_private_balance ◌+ℤ◌
balance_42 = refl

spend_n1 :
    derive_private_balance (mark_spent wallet "n1") "alice" +ℤ worth_of "alice" "n1" wallet
    ≡ derive_private_balance wallet "alice"
spend_n1 = mark_spent-balance wallet "alice" "n1"

abbrev accounting : PublicPoolAccounting
accounting = record {
  deposited = pos 100;
  withdrawn_net = pos 57;
  accrued_protocol_fees = pos 3;
  fee_swept_accounting = pos 2;
}

solvent_42 :
    (assert_pool_solvent accounting (pos 42) ≡ true)
    ↔ ((pos 2 ≤ℤ pos 3) × (pos 57 +ℤ pos 42 +ℤ pos 3 ≤ℤ pos 100 +ℤ pos 2))
solvent_42 = assert_pool_solvent_iff accounting (pos 42)
