-- ===== src/Core/Denominations/Accepts.antt =====
-- `assertFixedDenominationPublicExit`, and its agreement with the list of exits.
use mathlib.Core.Logic.Iff
use nullark.Prelude.{
  ◌≡◌, ◌≢◌, refl, ◌↔◌, ◌⊎◌, inl, inr, Bool, true, false, ◌||◌, not, throw_if, ◌>>◌, Option, List,
  [], ◌∷◌, arith, Bool-cases, Result, ok, All,
}
use nullark.Prelude.Int.{ℤ, pos, ◌-ℤ◌, ◌<ℤ◌, ltb_ℤ, eqb_ℤ, eqb_ℤ→eq, int_laws}
use nullark.Prelude.Sort.{sort_by}
use nullark.Core.Denominations.{
  FixedDenominationSplitPolicy, SpendablePublicExitPolicy, FixedDenominationPublicExit,
  DenominationError, includes, exits_of_supported, allows_full_exit, note_amount_not_supported,
  exit_amount_not_supported, exit_exceeds_note, change_not_supported, larger_first,
  normalize_denominations, spendable_public_exit_amounts_for_note,
  assert_fixed_denomination_public_exit,
}
use nullark.Core.Denominations.Normalize.{
  In, All-In, In-sorted, IsPositive, IsNormalized, includes_iff,
  normalize_denominations-IsNormalized, normalize_denominations-total,
}
use nullark.Core.Denominations.Exits.{LeavesChange, supported_eq, exits_from-members}

eq_of_no_change : (a b : ℤ) → a -ℤ b ≡ pos 0 → b ≡ a
unfolding ◌-ℤ◌
eq_of_no_change a b h = ground arith

no_change : (a : ℤ) → eqb_ℤ (a -ℤ a) (pos 0) ≡ true
unfolding ◌-ℤ◌
no_change a = ground arith

or-true : (b : Bool) → b || true ≡ true
or-true b = ground arith

-- The guards of `assertFixedDenominationPublicExit`, over the answers of its tests.
checked :
    FixedDenominationPublicExit
    → Bool
    → Bool
    → Bool
    → Bool
    → Result DenominationError FixedDenominationPublicExit
checked exit note_known exit_known over change_known = do
  throw_if (not note_known) note_amount_not_supported
  throw_if (not exit_known) exit_amount_not_supported
  throw_if over exit_exceeds_note
  throw_if (not change_known) change_not_supported
  ok exit

checked-ok_iff :
    (exit : FixedDenominationPublicExit) (n g o c : Bool)
    → (checked exit n g o c ≡ ok exit) ↔ ((n ≡ true) × (g ≡ true) × (o ≡ false) × (c ≡ true))
unfolding checked
checked-ok_iff exit n g o c = (λ h. ground arith, λ h. ground arith)

module _ (policy : FixedDenominationSplitPolicy) (normalized : List ℤ)
    (e : normalize_denominations policy.denominations_wei ≡ ok normalized) where
  module _ (note gross : ℤ) where
    -- The exits that leave a change, and the full exit.
    abbrev Listed : Type 0
    Listed = In note normalized × ((gross ≡ note) ⊎ LeavesChange normalized note normalized gross)

    change_of_listed :
        (changes : List ℤ)
        → All IsPositive changes
        → LeavesChange normalized note changes gross
        → In (note -ℤ gross) changes × (gross <ℤ note) × In gross normalized
    change_of_listed [] p l = absurd l
    change_of_listed (c ∷ cs) p (inl (is_gross, less, known)) =
        let back : note -ℤ (note -ℤ c) ≡ c = omega int_laws in
        let smaller : note -ℤ c <ℤ note = omega (int_laws, p.0) in
        (rw is_gross (inl back), rw is_gross smaller, known)
    change_of_listed (c ∷ cs) p (inr l) =
        let (m, less, known) = change_of_listed cs p.1 l in (inr m, less, known)

    listed_of_change :
        (changes : List ℤ)
        → In (note -ℤ gross) changes
        → pos 0 <ℤ gross
        → In gross normalized
        → LeavesChange normalized note changes gross
    listed_of_change [] m p known = absurd m
    listed_of_change (c ∷ cs) (inl is_c) p known =
        let back : gross ≡ note -ℤ (note -ℤ gross) = omega int_laws in
        let smaller : note -ℤ gross <ℤ note = omega (int_laws, p) in
        inl (rw (← is_c) back, rw (← is_c) smaller, known)
    listed_of_change (c ∷ cs) (inr m) p known = inr (listed_of_change cs m p known)

    no_change_iff : (eqb_ℤ (note -ℤ gross) (pos 0) ≡ true) ↔ (gross ≡ note)
    no_change_iff = (
      λ t. let same = eqb_ℤ→eq (note -ℤ gross) (pos 0) t in eq_of_no_change note gross same,
      λ q. rw q (no_change note),
    )

    full_guards :
        In note normalized
        → gross ≡ note
        → (includes note normalized ≡ true)
          × (includes gross normalized ≡ true)
          × (ltb_ℤ note gross ≡ false)
          × (eqb_ℤ (note -ℤ gross) (pos 0) || includes (note -ℤ gross) normalized ≡ true)
    full_guards in_note q =
        let known = (includes_iff note normalized).1 in_note in
        (known, rw q known, rw q (ground arith), rw (no_change_iff.1 q))

    guards_iff :
        IsNormalized policy.denominations_wei normalized
        → ((includes note normalized ≡ true)
            × (includes gross normalized ≡ true)
            × (ltb_ℤ note gross ≡ false)
            × (eqb_ℤ (note -ℤ gross) (pos 0) || includes (note -ℤ gross) normalized ≡ true))
          ↔ Listed
    guards_iff form = (
      λ (n, g, o, c).
          let in_gross = (includes_iff gross normalized).0 g in
          (
            (includes_iff note normalized).0 n,
            elim (Bool-cases (eqb_ℤ (note -ℤ gross) (pos 0))) [
              | inl whole ↦ inl (no_change_iff.0 whole)
              | inr part ↦ inr (
                  listed_of_change normalized
                    ((includes_iff (note -ℤ gross) normalized).0 (rw part at c))
                    (All-In IsPositive normalized gross form.positive in_gross) in_gross)
            ],
          ),
      λ (in_note, d). elim d [
        | inl full ↦ full_guards in_note full
        | inr l ↦
            let (in_change, less, in_gross) = change_of_listed normalized form.positive l in
            let known = (includes_iff (note -ℤ gross) normalized).1 in_change in
            (
              (includes_iff note normalized).1 in_note,
              (includes_iff gross normalized).1 in_gross,
              ground arith,
              rw known (or-true _),
            )
      ],
    )

  assert_eq :
      (exit : FixedDenominationPublicExit)
      → let note = exit.note_amount_wei in
        let gross = exit.gross_amount_wei in
        assert_fixed_denomination_public_exit exit policy
        ≡ checked exit
            (includes note normalized)
            (includes gross normalized)
            (ltb_ℤ note gross)
            (eqb_ℤ (note -ℤ gross) (pos 0) || includes (note -ℤ gross) normalized)
  unfolding assert_fixed_denomination_public_exit checked
  assert_eq exit =
      let note = exit.note_amount_wei in
      let gross = exit.gross_amount_wei in
      elim (Bool-cases (eqb_ℤ (note -ℤ gross) (pos 0))) [
        | inl whole ↦
            rw
              (supported_eq policy normalized e note, supported_eq policy normalized e gross, whole)
        | inr part ↦ rw (
          supported_eq policy normalized e note,
          supported_eq policy normalized e gross,
          part,
          supported_eq policy normalized e (note -ℤ gross),
        )
      ]

  assert_iff :
      (exit : FixedDenominationPublicExit)
      → (assert_fixed_denomination_public_exit exit policy ≡ ok exit)
        ↔ Listed exit.note_amount_wei exit.gross_amount_wei
  assert_iff exit = rw (assert_eq exit) (
      Iff.trans (checked-ok_iff exit _ _ _ _) (
        guards_iff exit.note_amount_wei exit.gross_amount_wei
          (normalize_denominations-IsNormalized policy.denominations_wei e)))

  full_or_change :
      (note gross : ℤ)
      → includes note normalized ≡ true
      → (In gross (note ∷ []) ⊎ LeavesChange normalized note normalized gross) ↔ Listed note gross
  full_or_change note gross known = (
    elim [
      | inl m ↦
          ((includes_iff note normalized).0 known, elim m [ inl q ↦ inl q | inr z ↦ absurd z ])
      | inr l ↦ ((includes_iff note normalized).0 known, inr l)
    ],
    λ (_, d). elim d [ inl q ↦ inl (inl q) | inr l ↦ inr l ],
  )

  -- The exits of a note are exactly those that the assertion accepts for it.
  exits_iff :
      (note : ℤ) (allow_full_exit : Option Bool)
      → allows_full_exit allow_full_exit ≡ true
      → (exits : List ℤ) × (spendable_public_exit_amounts_for_note note
            (record { split_policy = policy; allow_full_exit = allow_full_exit })
          ≡ ok exits)
        × ((gross : ℤ) → In gross exits ↔ Listed note gross)
  unfolding spendable_public_exit_amounts_for_note exits_of_supported
  exits_iff note allow full = elim (Bool-cases (includes note normalized)) [
    | inl known ↦
        let (found, f, i) = exits_from-members policy normalized e note (note ∷ []) normalized in
        rw (supported_eq policy normalized e note, known, e, full, f)
          (
            sort_by larger_first found,
            refl,
            λ gross.
                Iff.trans (In-sorted gross found)
                  (Iff.trans (i gross) (full_or_change note gross known)),
          )
    | inr unknown ↦
        rw (supported_eq policy normalized e note, unknown)
          (
            [],
            refl,
            λ gross. (λ m. absurd m, λ l. cc (unknown, (includes_iff note normalized).1 l.0)),
          )
  ]

-- Under a policy of positive denominations, at least one, that allows the full exit, an amount is among the exits of
-- a note exactly if the assertion accepts it as an exit of that note.
pub spendable-iff_assert :
    (policy : SpendablePublicExitPolicy) (note gross : ℤ)
    → policy.denominations_wei ≢ []
    → All IsPositive policy.denominations_wei
    → allows_full_exit policy.allow_full_exit ≡ true
    → (exits : List ℤ) × (spendable_public_exit_amounts_for_note note policy ≡ ok exits)
      × (In gross exits ↔ (
          assert_fixed_denomination_public_exit
            (record { note_amount_wei = note; gross_amount_wei = gross })
            policy.split_policy
          ≡ ok (record { note_amount_wei = note; gross_amount_wei = gross })))
spendable-iff_assert policy note gross n p full =
    let (normalized, e) = normalize_denominations-total policy.denominations_wei n p in
    let (exits, listed, i) =
      exits_iff policy.split_policy normalized e note policy.allow_full_exit full in
    (
      exits,
      listed,
      Iff.trans (i gross) (
          Iff.symm (
            assert_iff policy.split_policy normalized e
              (record { note_amount_wei = note; gross_amount_wei = gross }))),
    )
