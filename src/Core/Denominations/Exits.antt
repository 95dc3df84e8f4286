-- ===== src/Core/Denominations/Exits.antt =====
-- The members of the list that `spendablePublicExitAmountsForNote` returns.
use mathlib.Core.Logic.Iff
use nullark.Prelude.{
  ◌≡◌, refl, ◌↔◌, ◌⊎◌, inl, inr, true, false, ◌&&◌, List, [], ◌∷◌, arith, Bool-cases, ok, Any,
  if◌then◌else◌,
}
use nullark.Prelude.Int.{ℤ, ◌-ℤ◌, ◌<ℤ◌, ltb_ℤ}
use nullark.Core.Denominations.{
  FixedDenominationSplitPolicy, includes, add_new, exits_from, normalize_denominations,
  is_supported_fixed_denomination,
}
use nullark.Core.Denominations.Normalize.{In, In-add_new, includes_iff}

-- An exit that is itself allowed, and leaves a change among `changes`.
abbrev pub LeavesChange : List ℤ → ℤ → List ℤ → ℤ → Type 0
LeavesChange normalized note changes x =
    Any (λ change. (x ≡ note -ℤ change) × (change <ℤ note) × In x normalized) changes

module _ (policy : FixedDenominationSplitPolicy) (normalized : List ℤ)
    (e : normalize_denominations policy.denominations_wei ≡ ok normalized) where
  pub supported_eq : (x : ℤ) → is_supported_fixed_denomination x policy ≡ ok (includes x normalized)
  unfolding is_supported_fixed_denomination
  supported_eq x = rw e

  step_eq :
      (note change : ℤ) (exits rest : List ℤ)
      → exits_from policy note exits (change ∷ rest)
        ≡ exits_from policy note
            (if ltb_ℤ change note && includes (note -ℤ change) normalized
              then add_new exits (note -ℤ change)
              else exits)
            rest
  unfolding exits_from
  step_eq note change exits rest = elim (Bool-cases (ltb_ℤ change note)) [
    | inl less ↦ rw (less, supported_eq (note -ℤ change))
    | inr more ↦ rw more
  ]

  module _ (note change : ℤ) (exits : List ℤ) (L : ℤ → Type 0) (x : ℤ) where
    abbrev Leaves : Type 0
    Leaves = (x ≡ note -ℤ change) × (change <ℤ note) × In x normalized

    kept_iff :
        ltb_ℤ change note && includes (note -ℤ change) normalized ≡ true
        → (In x (add_new exits (note -ℤ change)) ⊎ L x) ↔ (In x exits ⊎ (Leaves ⊎ L x))
    kept_iff kept =
        let less : change <ℤ note = ground arith in
        let known = (includes_iff (note -ℤ change) normalized).0 (ground arith) in
        let i = In-add_new x exits (note -ℤ change) in
        (
          elim [
            | inl m ↦ elim (i.0 m) [
              | inl old ↦ inl old
              | inr new ↦ inr (inl (new, less, rw new known))
            ]
            | inr l ↦ inr (inr l)
          ],
          elim [
            | inl old ↦ inl (i.1 (inl old))
            | inr m ↦ elim m [ inl new ↦ inl (i.1 (inr new.0)) | inr l ↦ inr l ]
          ],
        )

    left_iff :
        ltb_ℤ change note && includes (note -ℤ change) normalized ≡ false
        → (In x exits ⊎ L x) ↔ (In x exits ⊎ (Leaves ⊎ L x))
    left_iff left_out = (
      elim [ inl m ↦ inl m | inr l ↦ inr (inr l) ],
      elim [
        | inl m ↦ inl m
        | inr m ↦ elim m [
          | inl (is_x, less, known) ↦
              let test = (includes_iff (note -ℤ change) normalized).1 (rw is_x at known) in
              absurd (ground arith)
          | inr l ↦ inr l
        ]
      ],
    )

  pub exits_from-members :
      (note : ℤ) (exits changes : List ℤ)
      → (found : List ℤ) × (exits_from policy note exits changes ≡ ok found)
        × ((x : ℤ) → In x found ↔ (In x exits ⊎ LeavesChange normalized note changes x))
  unfolding exits_from
  exits_from-members note exits [] =
      (exits, refl, λ x. (λ m. inl m, elim [ inl m ↦ m | inr z ↦ absurd z ]))
  exits_from-members note exits (change ∷ rest) =
      rw (step_eq note change exits rest)
        (elim (Bool-cases (ltb_ℤ change note && includes (note -ℤ change) normalized)) [
          | inl kept ↦
              let (found, f, i) = exits_from-members note (add_new exits (note -ℤ change)) rest in
              rw kept (
                found,
                f,
                λ x.
                    Iff.trans (i x)
                      (kept_iff note change exits (LeavesChange normalized note rest) x kept),
              )
          | inr left_out ↦
              let (found, f, i) = exits_from-members note exits rest in
              rw left_out (
                found,
                f,
                λ x.
                    Iff.trans (i x)
                      (left_iff note change exits (LeavesChange normalized note rest) x left_out),
              )
        ])
