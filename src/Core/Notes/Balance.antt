-- ===== src/Core/Notes/Balance.antt =====
-- The balance counts the unspent notes of the key, and spending removes exactly the notes with the
-- nullifier.
use Prim.Native.String.{String}
use text.Mathlib.Text.{◌==◌ as str_eq}
use nullark.Prelude.{
  ◌≡◌, refl, ◌↔◌, inl, inr, Bool, true, not, ◌||◌, List, [], ◌∷◌, arith, Bool-cases, if◌then◌else◌,
  ◌∙◌, ap,
}
use nullark.Prelude.Int.{
  ℤ, pos, ◌+ℤ◌, ◌-ℤ◌, ◌≤ℤ◌, ltb_ℤ, ltb_ℤ→lt, ltb_ℤ→le, leb_ℤ→le, le→leb_ℤ, int_laws,
}
use nullark.Core.Notes.{
  ShieldedNote, PublicPoolAccounting, add_note, reduce_balance, derive_private_balance, spend_if,
  mark_spent, assert_pool_solvent,
}

-- What a note adds to the balance of a key.
abbrev worth : String → ShieldedNote → ℤ
worth key note =
    if not (str_eq note.owner_viewing_key_id key) || note.spent then pos 0 else note.amount

-- What a nullifier takes from the balance of a key: the worth of the notes that carry it.
unfoldable pub worth_of : String → String → List ShieldedNote → ℤ
worth_of key nullifier [] = pos 0
worth_of key nullifier (note ∷ notes) =
    (if str_eq note.nullifier nullifier then worth key note else pos 0)
    +ℤ worth_of key nullifier notes

reduce_balance-from :
    (key : String) (start : ℤ) (notes : List ShieldedNote)
    → reduce_balance key start notes ≡ start +ℤ reduce_balance key (pos 0) notes
unfolding reduce_balance
reduce_balance-from key start [] = omega int_laws
reduce_balance-from key start (note ∷ notes) =
    elim (Bool-cases (not (str_eq note.owner_viewing_key_id key) || note.spent)) [
      | inl skip ↦ rw skip (reduce_balance-from key start notes)
      | inr own ↦
          let left = reduce_balance-from key (start +ℤ note.amount) notes in
          let right = reduce_balance-from key (pos 0 +ℤ note.amount) notes in
          rw (own, left, right) (omega int_laws)
    ]

add_note-worth : (key : String) (note : ShieldedNote) → add_note key (pos 0) note ≡ worth key note
add_note-worth key note =
    elim (Bool-cases (not (str_eq note.owner_viewing_key_id key) || note.spent)) [
      | inl skip ↦ rw skip
      | inr own ↦ rw own (omega int_laws)
    ]

or-true : (b : Bool) → b || true ≡ true
or-true b = ground arith

balance-cons :
    (key : String) (note : ShieldedNote) (notes : List ShieldedNote)
    → derive_private_balance (note ∷ notes) key ≡ worth key note +ℤ derive_private_balance notes key
unfolding derive_private_balance
balance-cons key note notes =
    reduce_balance-from key (add_note key (pos 0) note) notes
    ∙ ap (λ w. w +ℤ reduce_balance key (pos 0) notes) (add_note-worth key note)

worth-spend_if :
    (key nullifier : String) (note : ShieldedNote)
    → worth key (spend_if nullifier note)
        +ℤ (if str_eq note.nullifier nullifier then worth key note else pos 0)
      ≡ worth key note
worth-spend_if key nullifier note = elim (Bool-cases (str_eq note.nullifier nullifier)) [
  | inl hit ↦ rw (hit, or-true (not (str_eq note.owner_viewing_key_id key))) (omega int_laws)
  | inr miss ↦ rw miss (omega int_laws)
]

regroup : (a d w v n m : ℤ) → a +ℤ w ≡ n → d +ℤ v ≡ m → a +ℤ d +ℤ (w +ℤ v) ≡ n +ℤ m
regroup a d w v n m p q = rw (← p, ← q) (omega int_laws)

-- Marking a nullifier spent lowers the balance of a key by the unspent notes of the key that carry
-- the nullifier, and by nothing else.
pub mark_spent-balance :
    (notes : List ShieldedNote) (key nullifier : String)
    → derive_private_balance (mark_spent notes nullifier) key +ℤ worth_of key nullifier notes
      ≡ derive_private_balance notes key
unfolding mark_spent worth_of
mark_spent-balance [] key nullifier = omega int_laws
mark_spent-balance (note ∷ notes) key nullifier =
    rw
      (
        balance-cons key (spend_if nullifier note) (mark_spent notes nullifier),
        balance-cons key note notes,
      )
      (regroup (worth key (spend_if nullifier note))
        (derive_private_balance (mark_spent notes nullifier) key)
        (if str_eq note.nullifier nullifier then worth key note else pos 0)
        (worth_of key nullifier notes) (worth key note) (derive_private_balance notes key)
        (worth-spend_if key nullifier note) (mark_spent-balance notes key nullifier))

-- Marking a nullifier spent twice is marking it spent once.
mark_spent-idempotent :
    (notes : List ShieldedNote) (nullifier : String)
    → mark_spent (mark_spent notes nullifier) nullifier ≡ mark_spent notes nullifier
unfolding mark_spent
mark_spent-idempotent [] nullifier = refl
mark_spent-idempotent (note ∷ notes) nullifier =
    ground (arith, mark_spent-idempotent notes nullifier)

-- The pool is solvent exactly if no more fees were swept than accrued, and the deposits cover what was
-- paid out, the private notes and the fees that were not swept.
pub assert_pool_solvent_iff :
    (accounting : PublicPoolAccounting) (unspent : ℤ)
    → (assert_pool_solvent accounting unspent ≡ true) ↔ (
        (accounting.fee_swept_accounting ≤ℤ accounting.accrued_protocol_fees)
        × (accounting.withdrawn_net +ℤ unspent +ℤ accounting.accrued_protocol_fees
            ≤ℤ accounting.deposited +ℤ accounting.fee_swept_accounting))
unfolding assert_pool_solvent
assert_pool_solvent_iff accounting unspent =
    let accrued = accounting.accrued_protocol_fees in
    let swept = accounting.fee_swept_accounting in
    let owed = accounting.withdrawn_net +ℤ unspent +ℤ (accrued -ℤ swept) in
    elim (Bool-cases (ltb_ℤ accrued swept)) [
      | inl over ↦ rw over (λ h. cc, λ h. absurd (omega (arith, ltb_ℤ→lt accrued swept over, h.0)))
      | inr fine ↦ rw fine (
        λ h. (ltb_ℤ→le accrued swept fine, omega (int_laws, leb_ℤ→le owed accounting.deposited h)),
        λ h. le→leb_ℤ owed accounting.deposited (omega (int_laws, h.1)),
      )
    ]
