-- ===== src/Core/Denominations/Outcome.antt =====
-- What a call of `splitIntoFixedDenominations` returns, on every branch.
use nullark.Prelude.{
  ℕ, ◌≡◌, ◌≢◌, ◌∙◌, refl, sym, ◌↔◌, ◌⊎◌, inl, inr, false, Option, none, some, List, [], ◌∷◌, arith,
  Bool-cases, Result, ok, err, ◌>>=◌, length, All, IsSorted,
}
use nullark.Prelude.Int.{ℤ, sum_ℤ, pos, ◌+ℤ◌, ◌<ℤ◌, ◌≤ℤ◌, leb_ℤ, eqb_ℤ, eqb_ℤ→eq, int_laws}
use nullark.Core.Denominations.{
  FixedDenominationSplitPolicy, FixedDenominationSplit, DenominationError, add_new, conclude_split,
  exceeds_max_note_count, unsupported_dust_remainder, unique_from, split_from,
  split_into_fixed_denominations,
}
use nullark.Core.Denominations.Normalize.{
  In, All-of_In, All-In, In-add_new, IsPositive, NoLarger, IsNormalized,
  normalize_denominations-IsNormalized, normalize_denominations-total,
}
use nullark.Core.Denominations.Greedy.{IsGreedy, IsOver}
use nullark.Core.Denominations.Split.{Within, IsSplit, Finished, split_from-Finished}

In-unique_from : (x : ℤ) (set xs : List ℤ) → In x (unique_from set xs) ↔ (In x set ⊎ In x xs)
unfolding unique_from
In-unique_from x set [] = (λ m. inl m, elim [ inl m ↦ m | inr z ↦ absurd z ])
In-unique_from x set (y ∷ ys) =
    let ih = In-unique_from x (add_new set y) ys in
    let i = In-add_new x set y in
    (
      λ m. elim (ih.0 m) [
        | inl a ↦ elim (i.0 a) [ inl old ↦ inl old | inr new ↦ inr (inl new) ]
        | inr later ↦ inr (inr later)
      ],
      elim [
        | inl old ↦ ih.1 (inl (i.1 (inl old)))
        | inr m ↦ elim m [ inl new ↦ ih.1 (inl (i.1 (inr new))) | inr later ↦ ih.1 (inr later) ]
      ],
    )

start-IsSplit :
    (amount : ℤ) (source : List ℤ) (max : Option ℕ)
    → pos 0 <ℤ amount
    → IsSplit amount source max [] amount
unfolding sum_ℤ
start-IsSplit amount source max p = record {
  adds_up = omega int_laws;
  known = tt;
  descending = tt;
  greedy = tt;
  within = elim max as (λ m. Within 0 m) [ none ↦ tt | some m ↦ omega arith ];
  nonneg = omega arith;
}

-- A split of the amount into notes that the policy allows.
pub record IsSplitOf (amount : ℤ) (policy : FixedDenominationSplitPolicy)
    (split : FixedDenominationSplit) : Type 0 where
  pub requested : split.requested_amount_wei ≡ amount
  pub adds_up : sum_ℤ split.notes_wei ≡ amount
  pub known : All (λ x. In x policy.denominations_wei) split.notes_wei
  pub descending : IsSorted NoLarger split.notes_wei
  pub greedy : IsGreedy policy.denominations_wei amount split.notes_wei
  pub counted : split.note_count ≡ length split.notes_wei
  pub within : Within split.note_count policy.max_note_count
  pub unique : (x : ℤ) → In x split.unique_denominations_wei ↔ In x split.notes_wei

module _ (amount : ℤ) (policy : FixedDenominationSplitPolicy) where
  abbrev pub SplitOutcome : Result DenominationError FixedDenominationSplit → Type 0
  SplitOutcome (ok split) = IsSplitOf amount policy split
  SplitOutcome (err exceeds_max_note_count) =
      IsOver policy.denominations_wei amount policy.max_note_count
  SplitOutcome (err (unsupported_dust_remainder r)) =
      (pos 0 <ℤ r)
      × All (λ d. r <ℤ d) policy.denominations_wei
      × (notes : List ℤ) × All (λ x. In x policy.denominations_wei) notes
      × (sum_ℤ notes +ℤ r ≡ amount)
  SplitOutcome (err _) = ⊥

  conclude_split-outcome :
      (notes : List ℤ) (remaining : ℤ)
      → IsSplit amount policy.denominations_wei policy.max_note_count notes remaining
      → All (λ d. remaining <ℤ d) policy.denominations_wei
      → SplitOutcome (conclude_split amount notes remaining)
  unfolding conclude_split
  conclude_split-outcome notes remaining s below = elim (Bool-cases (eqb_ℤ remaining (pos 0))) [
    | inl e ↦
        let none_left : sum_ℤ notes +ℤ remaining ≡ sum_ℤ notes =
          rw (eqb_ℤ→eq remaining (pos 0) e) (omega int_laws) in
        rw e (record {
          requested = refl;
          adds_up = sym none_left ∙ s.adds_up;
          known = s.known;
          descending = s.descending;
          greedy = s.greedy;
          counted = refl;
          within = s.within;
          unique = λ x.
              let i = In-unique_from x [] notes in
              (λ m. elim (i.0 m) [ inl z ↦ absurd z | inr k ↦ k ], λ m. i.1 (inr m));
        })
    | inr e ↦
        let positive : pos 0 <ℤ remaining = left_positive remaining s.nonneg e in
        rw e (positive, below, notes, s.known, s.adds_up)
  ]
    where
      left_positive : (r : ℤ) → pos 0 ≤ℤ r → eqb_ℤ r (pos 0) ≡ false → pos 0 <ℤ r
      left_positive r h e = ground arith

  finish :
      (denominations : List ℤ)
      → IsNormalized policy.denominations_wei denominations
      → (r : Result DenominationError (List ℤ × ℤ))
      → Finished amount policy.denominations_wei policy.max_note_count amount denominations r
      → SplitOutcome (r >>= λ (notes, remaining). conclude_split amount notes remaining)
  finish denominations n (ok (notes, remaining)) (s, below, _) =
      conclude_split-outcome notes remaining s (
        All-of_In (λ d. remaining <ℤ d) policy.denominations_wei
          (λ d m. All-In (λ d. remaining <ℤ d) denominations d below ((n.same d).1 m)))
  finish denominations n (err exceeds_max_note_count) m = m
  finish denominations n (err _) m = absurd m

  -- A positive amount under a policy of positive denominations, at least one, is split into allowed notes,
  -- each the largest that fits into what the notes before it leave, in descending order and within the
  -- limit, that add up to it; or one note more than the limit allows can be taken in that way; or allowed
  -- notes leave dust, smaller than every denomination. The loops end in every case.
  pub split_into_fixed_denominations-outcome :
      pos 0 <ℤ amount
      → policy.denominations_wei ≢ []
      → All IsPositive policy.denominations_wei
      → SplitOutcome (split_into_fixed_denominations amount policy)
  unfolding split_into_fixed_denominations
  split_into_fixed_denominations-outcome p n positive =
      let (denominations, e) = normalize_denominations-total policy.denominations_wei n positive in
      let form = normalize_denominations-IsNormalized policy.denominations_wei e in
      let start : leb_ℤ amount (pos 0) ≡ false = ground arith in
      rw (start, e)
        (finish denominations form (split_from policy.max_note_count denominations [] amount) (
          split_from-Finished amount policy.denominations_wei policy.max_note_count denominations []
            amount form.positive
            (All-of_In (λ d. In d policy.denominations_wei) denominations
              (λ d m. (form.same d).0 m))
            form.descending (start-IsSplit amount policy.denominations_wei policy.max_note_count p)
            (All-of_In _ denominations (λ d m. tt)) (λ x m le. (form.same x).1 m)))
