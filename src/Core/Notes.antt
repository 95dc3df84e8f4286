-- ===== src/Core/Notes.antt =====
-- packages/core/src/notes.ts: the private balance of a viewing key, spending by nullifier, and the
-- solvency of the public pool. A `bigint` is ℤ; texts are compared by `===`.
pub mod Balance
mod Examples
use Prim.Native.String.{String}
use text.Mathlib.Text.{◌==◌ as str_eq}
use mathlib.Core.List.{foldl}
use nullark.Prelude.{Bool, true, false, not, ◌||◌, List, [], ◌∷◌, map, if◌then◌else◌}
use nullark.Prelude.Int.{ℤ, pos, ◌+ℤ◌, ◌-ℤ◌, ltb_ℤ, leb_ℤ}

pub record ShieldedNote : Type 0 where
  pub commitment : String
  pub nullifier : String
  pub owner_viewing_key_id : String
  pub amount : ℤ
  pub spent : Bool

pub record PublicPoolAccounting : Type 0 where
  pub deposited : ℤ
  pub withdrawn_net : ℤ
  pub accrued_protocol_fees : ℤ
  pub fee_swept_accounting : ℤ

-- The callback of the `reduce`.
abbrev pub add_note : String → ℤ → ShieldedNote → ℤ
add_note viewing_key_id balance note =
    if not (str_eq note.owner_viewing_key_id viewing_key_id) || note.spent
    then balance
    else balance +ℤ note.amount

unfoldable pub reduce_balance : String → ℤ → List ShieldedNote → ℤ
reduce_balance viewing_key_id balance [] = balance
reduce_balance viewing_key_id balance (note ∷ notes) =
    reduce_balance viewing_key_id (add_note viewing_key_id balance note) notes

unfoldable pub derive_private_balance : List ShieldedNote → String → ℤ
unfolding reduce_balance
derive_private_balance notes viewing_key_id = reduce_balance viewing_key_id (pos 0) notes

abbrev pub spend_if : String → ShieldedNote → ShieldedNote
spend_if nullifier note =
    if str_eq note.nullifier nullifier then record note { spent = true } else note

unfoldable pub mark_spent : List ShieldedNote → String → List ShieldedNote
mark_spent [] nullifier = []
mark_spent (note ∷ notes) nullifier = spend_if nullifier note ∷ mark_spent notes nullifier

unfoldable pub assert_pool_solvent : PublicPoolAccounting → ℤ → Bool
assert_pool_solvent accounting unspent_private_notes =
    let unswept_fees = accounting.accrued_protocol_fees -ℤ accounting.fee_swept_accounting in
    if ltb_ℤ accounting.accrued_protocol_fees accounting.fee_swept_accounting
    then false
    else leb_ℤ (accounting.withdrawn_net +ℤ unspent_private_notes +ℤ unswept_fees)
        accounting.deposited
