-- ===== src/Core/Denominations/Split.antt =====
-- `splitIntoFixedDenominations`: the notes add up to the amount, and why a split fails.
use mathlib.Core.Path.{subst}
use nullark.Prelude.{
  ℕ, zero, suc, ◌≤◌, ◌<◌, ◌≡◌, ◌+◌, ◌∙◌, refl, inl, inr, true, false, Option, none, some, List, [],
  ◌∷◌, ◌++◌, arith, Bool-cases, Result-cases, Result, ok, err, length, length-append, All,
  All-append, All-mono, IsSorted,
}
use nullark.Prelude.Int.{
  ℤ, pos, pos_part, sum_ℤ, ◌+ℤ◌, ◌-ℤ◌, ◌<ℤ◌, ◌≤ℤ◌, leb_ℤ, leb_ℤ→le, pos_part-sub-lt, int_laws,
}
use nullark.Core.Denominations.{
  DenominationError, exceeds_max_note_count, exceeds, draw_notes, split_from,
}
use nullark.Core.Denominations.Normalize.{In, All-In, IsPositive, NoLarger}
use nullark.Core.Denominations.Greedy.{IsLargest, IsGreedy, IsOver, push-IsGreedy}

sum_ℤ-push : (xs : List ℤ) (x : ℤ) → sum_ℤ (xs ++ x ∷ []) ≡ sum_ℤ xs +ℤ x
unfolding sum_ℤ
sum_ℤ-push [] x = omega int_laws
sum_ℤ-push (y ∷ ys) x = rw (sum_ℤ-push ys x) (omega int_laws)

-- The limit on notes, where there is one.
abbrev pub Within : ℕ → Option ℕ → Type 0
Within count none = Unit
Within count (some max_note_count) = count ≤ max_note_count

exceeds-Within : (count : ℕ) (max : Option ℕ) → exceeds count max ≡ false → Within count max
unfolding exceeds
exceeds-Within count none e = tt
exceeds-Within count (some m) e = ground arith

Within-IsOver :
    (amount : ℤ) (source : List ℤ) (max : Option ℕ) (notes : List ℤ) (d : ℤ)
    → Within (length notes) max
    → exceeds (length (notes ++ d ∷ [])) max ≡ true
    → IsGreedy source amount (notes ++ d ∷ [])
    → IsOver source amount max
unfolding exceeds
Within-IsOver amount source none notes d w e g = cc
Within-IsOver amount source (some m) notes d w e g =
    let longer : length (notes ++ d ∷ []) ≡ length notes + 1 = length-append notes (d ∷ []) in
    let over : m < length (notes ++ d ∷ []) = ground (arith, e) in
    record {
      limit = m;
      limit_is = refl;
      notes = notes ++ d ∷ [];
      greedy = g;
      one_more = omega (arith, longer, over, w);
    }

abbrev AtLeast : ℤ → ℤ → Type 0
AtLeast d x = d ≤ℤ x

-- The state of the loops: the notes so far are known denominations in descending order, and add up,
-- with what remains, to the amount.
pub record IsSplit (amount : ℤ) (source : List ℤ) (max : Option ℕ) (notes : List ℤ) (remaining : ℤ)
    : Type 0 where
  pub adds_up : sum_ℤ notes +ℤ remaining ≡ amount
  pub known : All (λ x. In x source) notes
  pub descending : IsSorted NoLarger notes
  pub greedy : IsGreedy source amount notes
  pub within : Within (length notes) max
  pub nonneg : pos 0 ≤ℤ remaining

push-descending :
    (d : ℤ) (notes : List ℤ)
    → All (AtLeast d) notes
    → IsSorted NoLarger notes
    → IsSorted NoLarger (notes ++ d ∷ [])
push-descending d [] a s = (tt, tt)
push-descending d (x ∷ xs) a s =
    (All-append (NoLarger x) xs (d ∷ []) s.0 (a.0, tt), push-descending d xs a.1 s.1)

module _ (amount : ℤ) (source : List ℤ) (max : Option ℕ) where
  -- What the inner loop ends with: it never runs out of fuel.
  abbrev Drawn : ℤ → ℤ → Result DenominationError (List ℤ × ℤ) → Type 0
  Drawn d start (ok (notes, remaining)) =
      IsSplit amount source max notes remaining
      × All (AtLeast d) notes
      × (remaining <ℤ d)
      × (remaining ≤ℤ start)
  Drawn d start (err exceeds_max_note_count) = IsOver source amount max
  Drawn d start (err _) = ⊥

  Drawn-mono :
      (d low high : ℤ) (r : Result DenominationError (List ℤ × ℤ))
      → low ≤ℤ high
      → Drawn d low r
      → Drawn d high r
  Drawn-mono d low high (ok (notes, remaining)) h (s, a, below, start) = (s, a, below, omega arith)
  Drawn-mono d low high (err exceeds_max_note_count) h m = m
  Drawn-mono d low high (err _) h m = absurd m

  push-IsSplit :
      (d : ℤ) (notes : List ℤ) (remaining : ℤ)
      → In d source
      → IsSplit amount source max notes remaining
      → All (AtLeast d) notes
      → d ≤ℤ remaining
      → IsLargest source remaining d
      → exceeds (length (notes ++ d ∷ [])) max ≡ false
      → IsSplit amount source max (notes ++ d ∷ []) (remaining -ℤ d)
  push-IsSplit d notes remaining m s a enough largest fits =
      let moved : sum_ℤ notes +ℤ d +ℤ (remaining -ℤ d) ≡ sum_ℤ notes +ℤ remaining =
        omega int_laws in
      record {
        adds_up = rw (sum_ℤ-push notes d) (moved ∙ s.adds_up);
        known = All-append (λ x. In x source) notes (d ∷ []) s.known (m, tt);
        descending = push-descending d notes a s.descending;
        greedy = push-IsGreedy source amount notes d remaining s.greedy s.adds_up m enough largest;
        within = exceeds-Within (length (notes ++ d ∷ [])) max fits;
        nonneg = omega int_laws;
      }

  draw_notes-Drawn :
      (fuel : ℕ) (d : ℤ) (notes : List ℤ) (remaining : ℤ)
      → IsPositive d
      → In d source
      → pos_part remaining < fuel
      → IsSplit amount source max notes remaining
      → All (AtLeast d) notes
      → IsLargest source remaining d
      → Drawn d remaining (draw_notes max fuel d notes remaining)
  unfolding draw_notes
  draw_notes-Drawn zero d notes remaining p m f s a largest = absurd (omega arith)
  draw_notes-Drawn (suc fuel) d notes remaining p m f s a largest =
      elim (Bool-cases (leb_ℤ d remaining)) [
        | inl enough ↦ elim (Bool-cases (exceeds (length (notes ++ d ∷ [])) max)) [
          | inl over ↦
              let greedy =
                push-IsGreedy source amount notes d remaining s.greedy s.adds_up m
                  (leb_ℤ→le d remaining enough) largest in
              rw (enough, over) (Within-IsOver amount source max notes d s.within over greedy)
          | inr fits ↦
              let le = leb_ℤ→le d remaining enough in
              rw (enough, fits)
                (Drawn-mono d (remaining -ℤ d) remaining _ (omega int_laws) (
                  draw_notes-Drawn fuel d (notes ++ d ∷ []) (remaining -ℤ d) p m
                    (omega (arith, pos_part-sub-lt remaining d p le))
                    (push-IsSplit d notes remaining m s a le largest fits)
                    (All-append (AtLeast d) notes (d ∷ []) a (omega arith, tt))
                    (λ x k le'. largest x k (omega int_laws))))
        ]
        | inr short ↦ rw short (s, a, ground arith, omega arith)
      ]

  -- What the outer loop ends with.
  abbrev pub Finished : ℤ → List ℤ → Result DenominationError (List ℤ × ℤ) → Type 0
  Finished start ds (ok (notes, remaining)) =
      IsSplit amount source max notes remaining
      × All (λ d. remaining <ℤ d) ds
      × (remaining ≤ℤ start)
  Finished start ds (err exceeds_max_note_count) = IsOver source amount max
  Finished start ds (err _) = ⊥

  Finished-cons :
      (d left start : ℤ) (ds : List ℤ) (r : Result DenominationError (List ℤ × ℤ))
      → left <ℤ d
      → left ≤ℤ start
      → Finished left ds r
      → Finished start (d ∷ ds) r
  Finished-cons d left start ds (ok (notes, remaining)) h k (s, below, from) =
      (s, (omega arith, below), omega arith)
  Finished-cons d left start ds (err exceeds_max_note_count) h k m = m
  Finished-cons d left start ds (err _) h k m = absurd m

  Drawn-err :
      (d start : ℤ) (ds : List ℤ) (e : DenominationError)
      → Drawn d start (err e)
      → Finished start (d ∷ ds) (err e)
  Drawn-err d start ds exceeds_max_note_count m = m
  Drawn-err d start ds _ m = absurd m

  lower_bounds :
      (d : ℤ) (ds drawn : List ℤ)
      → All (NoLarger d) ds
      → All (AtLeast d) drawn
      → All (λ e. All (AtLeast e) drawn) ds
  lower_bounds d ds drawn o b =
      All-mono (NoLarger d) (λ e. All (AtLeast e) drawn)
        (λ e h. All-mono (AtLeast d) (AtLeast e) (λ x k. omega arith) drawn b) ds o

  largest_first : (d : ℤ) (ds : List ℤ) (x : ℤ) → All (NoLarger d) ds → In x (d ∷ ds) → x ≤ℤ d
  largest_first d ds x o (inl e) = rw e (omega arith)
  largest_first d ds x o (inr m) = All-In (NoLarger d) ds x o m

  behind_first :
      (d left : ℤ) (ds : List ℤ) (x : ℤ) → left <ℤ d → x ≤ℤ left → In x (d ∷ ds) → In x ds
  behind_first d left ds x short le (inl e) =
      let larger : d ≤ℤ left = subst (λ y. y ≤ℤ left) e le in absurd (omega (arith, larger, short))
  behind_first d left ds x short le (inr m) = m

  pub split_from-Finished :
      (ds notes : List ℤ) (remaining : ℤ)
      → All IsPositive ds
      → All (λ d. In d source) ds
      → IsSorted NoLarger ds
      → IsSplit amount source max notes remaining
      → All (λ d. All (AtLeast d) notes) ds
      → ((x : ℤ) → In x source → x ≤ℤ remaining → In x ds)
      → Finished remaining ds (split_from max ds notes remaining)
  unfolding split_from
  split_from-Finished [] notes remaining p m o s a fits = (s, tt, omega arith)
  split_from-Finished (d ∷ ds) notes remaining p m o s a fits =
      let drawn =
        draw_notes-Drawn (suc (pos_part remaining)) d notes remaining p.0 m.0 (omega arith) s a.0
          (λ x k le. largest_first d ds x o.0 (fits x k le)) in
      elim (Result-cases (draw_notes max (suc (pos_part remaining)) d notes remaining)) [
        | inl ((more, left), e) ↦
            let (split, above, short, less) = subst (Drawn d remaining) e drawn in
            rw e (
              Finished-cons d left remaining ds (split_from max ds more left) short less (
                split_from-Finished ds more left p.1 m.1 o.1 split
                  (lower_bounds d ds more o.0 above)
                  (λ x k le.
                    behind_first d left ds x short le (fits x k (omega (arith, le, less))))))
        | inr (thrown, e) ↦
            rw e (Drawn-err d remaining ds thrown (subst (Drawn d remaining) e drawn))
      ]
