-- ===== src/Core/Denominations/Normalize.antt =====
-- `normalizeDenominations` and the membership tests.
use mathlib.Core.Path.{subst}
use nullark.Prelude.{
  ◌≡◌, refl, sym, ◌↔◌, ◌⊎◌, inl, inr, Bool, true, false, List, [], ◌∷◌, arith, Bool-cases,
  Result-cases, ◌≢◌, ok, All, Any, All-append, Any-append, IsSorted,
}
use mathlib.Core.Logic.Iff
use nullark.Prelude.Int.{ℤ, pos, ◌<ℤ◌, ◌≤ℤ◌, leb_ℤ, eqb_ℤ, eqb_ℤ→eq}
use nullark.Prelude.Sort.{sort_by, All-sort_by, Any-sort_by, sort_by-IsSorted}
use nullark.Core.Denominations.{
  FixedDenominationSplitPolicy, includes, add_new, normalize_from, larger_first,
  normalize_denominations, is_supported_fixed_denomination,
}

abbrev pub In : ℤ → List ℤ → Type 0
In x xs = Any (λ y. x ≡ y) xs

pub All-of_In : (P : ℤ → Type 0) (xs : List ℤ) → ((x : ℤ) → In x xs → P x) → All P xs
All-of_In P [] f = tt
All-of_In P (x ∷ xs) f = (f x (inl refl), All-of_In P xs (λ y m. f y (inr m)))

pub All-In : (P : ℤ → Type 0) (xs : List ℤ) (x : ℤ) → All P xs → In x xs → P x
All-In P [] x h m = absurd m
All-In P (y ∷ ys) x h (inl e) = subst P (sym e) h.0
All-In P (y ∷ ys) x h (inr m) = All-In P ys x h.1 m

abbrev pub IsPositive : ℤ → Type 0
IsPositive x = pos 0 <ℤ x

abbrev pub NoLarger : ℤ → ℤ → Type 0
NoLarger a b = b ≤ℤ a

pub includes_iff : (x : ℤ) (xs : List ℤ) → (includes x xs ≡ true) ↔ In x xs
unfolding includes
includes_iff x [] = (λ h. cc, λ h. absurd h)
includes_iff x (y ∷ ys) =
    let ih = includes_iff x ys in
    elim (Bool-cases (eqb_ℤ x y)) [
      | inl e ↦ rw e (λ h. inl (eqb_ℤ→eq x y e), λ h. refl)
      | inr e ↦ rw e (λ h. inr (ih.0 h), elim [ inl h ↦ ground arith | inr h ↦ ih.1 h ])
    ]

pub In-add_new : (x : ℤ) (xs : List ℤ) (y : ℤ) → In x (add_new xs y) ↔ (In x xs ⊎ (x ≡ y))
unfolding add_new
In-add_new x xs y = elim (Bool-cases (includes y xs)) [
  | inl e ↦ rw e (λ h. inl h, elim [ inl h ↦ h | inr h ↦ rw h ((includes_iff y xs).0 e) ])
  | inr e ↦
      let i = Any-append (λ z. x ≡ z) xs (y ∷ []) in
      rw e (
        λ h. elim (i.0 h) [ inl l ↦ inl l | inr r ↦ elim r [ inl s ↦ inr s | inr z ↦ absurd z ] ],
        elim [ inl h ↦ i.1 (inl h) | inr h ↦ i.1 (inr (inl h)) ],
      )
]

add_new-IsPositive :
    (xs : List ℤ) (y : ℤ) → All IsPositive xs → IsPositive y → All IsPositive (add_new xs y)
unfolding add_new
add_new-IsPositive xs y h p = elim (Bool-cases (includes y xs)) [
  | inl e ↦ rw e h
  | inr e ↦ rw e (All-append IsPositive xs (y ∷ []) h (p, tt))
]

-- What a successful normalisation promises of its result.
pub record IsNormalized (source : List ℤ) (normalized : List ℤ) : Type 0 where
  pub positive : All IsPositive normalized
  pub same : (x : ℤ) → In x normalized ↔ In x source
  pub descending : IsSorted NoLarger normalized

normalize_from-ok :
    (acc source : List ℤ) {normalized : List ℤ}
    → All IsPositive acc
    → normalize_from acc source ≡ ok normalized
    → All IsPositive normalized × ((x : ℤ) → In x normalized ↔ (In x acc ⊎ In x source))
unfolding normalize_from
normalize_from-ok acc [] {normalized} h e =
    let same : acc ≡ normalized = cc in
    subst (λ n. All IsPositive n × ((x : ℤ) → In x n ↔ (In x acc ⊎ ⊥))) same
      (h, λ x. (λ m. inl m, elim [ inl m ↦ m | inr z ↦ absurd z ]))
normalize_from-ok acc (d ∷ ds) h e = elim (Bool-cases (leb_ℤ d (pos 0))) [
  | inl low ↦ absurd (ground arith)
  | inr high ↦
      let ih =
        normalize_from-ok (add_new acc d) ds (add_new-IsPositive acc d h (ground arith))
          (ground arith) in
      (
        ih.0,
        λ x.
            let i = ih.1 x in
            let j = In-add_new x acc d in
            (
              λ m. elim (i.0 m) [
                | inl a ↦ elim (j.0 a) [ inl old ↦ inl old | inr new ↦ inr (inl new) ]
                | inr later ↦ inr (inr later)
              ],
              elim [
                | inl old ↦ i.1 (inl (j.1 (inl old)))
                | inr m ↦ elim m [
                  | inl new ↦ i.1 (inl (j.1 (inr new)))
                  | inr later ↦ i.1 (inr later)
                ]
              ],
            ),
      )
]

larger_first-total : (a b : ℤ) → larger_first a b ≡ false → NoLarger b a
larger_first-total a b e = ground arith

larger_first-NoLarger : (a b : ℤ) → larger_first a b ≡ true → NoLarger a b
larger_first-NoLarger a b e = ground arith

pub IsSorted-descending : (xs : List ℤ) → IsSorted NoLarger (sort_by larger_first xs)
IsSorted-descending =
    sort_by-IsSorted larger_first NoLarger (λ a b c h k. omega arith) larger_first-NoLarger
      larger_first-total

pub In-sorted : (x : ℤ) (xs : List ℤ) → In x (sort_by larger_first xs) ↔ In x xs
In-sorted x xs = Any-sort_by larger_first (λ y. x ≡ y) xs

-- Where the normalisation succeeds, its list holds the given denominations and no others, all positive, in descending order.
pub normalize_denominations-IsNormalized :
    (source : List ℤ) {normalized : List ℤ}
    → normalize_denominations source ≡ ok normalized
    → IsNormalized source normalized
unfolding normalize_denominations
normalize_denominations-IsNormalized [] e = cc
normalize_denominations-IsNormalized (d ∷ ds) {normalized} e =
    elim (Result-cases (normalize_from [] (d ∷ ds))) [
      | inl (found, f) ↦
          let (positive, members) = normalize_from-ok [] (d ∷ ds) tt f in
          let same : sort_by larger_first found ≡ normalized = ground arith in
          subst (IsNormalized (d ∷ ds)) same (record {
            positive = (All-sort_by larger_first IsPositive found).1 positive;
            same = λ x.
                Iff.trans (In-sorted x found)
                  (Iff.trans (members x) (elim [ inl z ↦ absurd z | inr m ↦ m ], λ m. inr m));
            descending = IsSorted-descending found;
          })
      | inr (thrown, f) ↦ absurd (ground arith)
    ]

normalize_from-total :
    (acc source : List ℤ)
    → All IsPositive source
    → (normalized : List ℤ) × (normalize_from acc source ≡ ok normalized)
unfolding normalize_from
normalize_from-total acc [] p = (acc, refl)
normalize_from-total acc (d ∷ ds) p =
    let high : leb_ℤ d (pos 0) ≡ false = ground arith in
    rw high (normalize_from-total (add_new acc d) ds p.1)

-- A list of positive denominations that is not empty is accepted.
pub normalize_denominations-total :
    (source : List ℤ)
    → source ≢ []
    → All IsPositive source
    → (normalized : List ℤ) × (normalize_denominations source ≡ ok normalized)
unfolding normalize_denominations
normalize_denominations-total [] n p = absurd (n refl)
normalize_denominations-total (d ∷ ds) n p =
    let (found, f) = normalize_from-total [] (d ∷ ds) p in
    (sort_by larger_first found, ground arith)

-- Under a policy that normalises, the test decides membership in the policy's list.
pub is_supported_fixed_denomination_lem :
    (amount_wei : ℤ) (policy : FixedDenominationSplitPolicy) {normalized : List ℤ}
    → normalize_denominations policy.denominations_wei ≡ ok normalized
    → (answer : Bool) × (is_supported_fixed_denomination amount_wei policy ≡ ok answer)
      × ((answer ≡ true) ↔ In amount_wei policy.denominations_wei)
unfolding is_supported_fixed_denomination
is_supported_fixed_denomination_lem amount_wei policy {normalized} e = (
  includes amount_wei normalized,
  rw e,
  Iff.trans (includes_iff amount_wei normalized)
      ((normalize_denominations-IsNormalized policy.denominations_wei e).same amount_wei),
)
