-- ===== src/Relay/Broadcaster/Reports.antt =====
-- Lists of reports, and the sets that services/relay/src/broadcaster.ts makes of lists.
use nullark.Prelude.{
  ℕ, Bool, true, false, ◌||◌, List, [], ◌∷◌, ◌++◌, map, ◌≡◌, refl, sym, ◌∙◌, ◌↔◌, inl, inr, Any,
  All, All-mono, Any-mono, All-append, any_of, arith, Bool-cases, ==_iff,
}
use mathlib.Core.Path.{subst}
use nullark.Prelude.Text.{Text, text_eq, text_eq→eq, text_eq_refl}
use nullark.Relay.Broadcaster.{reports, has_text, has_chain, distinct_from, set_of}

pub reports-nil {ℓ} :
    {E : Type ℓ} (checks : List (Bool × E))
    → (reports checks ≡ []) ↔ All (λ check. check.0 ≡ false) checks
reports-nil [] = (λ h. tt, λ h. refl)
reports-nil ((true, e) ∷ checks) = (λ h. cc, λ h. cc h.0)
reports-nil ((false, e) ∷ checks) =
    (λ h. (refl, (reports-nil checks).0 h), λ h. (reports-nil checks).1 h.1)

pub append-nil_iff {ℓ} : {A : Type ℓ} (xs ys : List A) → (xs ++ ys ≡ []) ↔ ((xs ≡ []) × (ys ≡ []))
append-nil_iff [] ys = (λ h. (refl, h), λ h. h.1)
append-nil_iff (x ∷ xs) ys = (λ h. cc, λ h. cc h.0)

pub any_of_iff {ℓ} :
    {A : Type ℓ} (p : A → Bool) (xs : List A) → (any_of p xs ≡ true) ↔ Any (λ x. p x ≡ true) xs
unfolding any_of
any_of_iff p [] = (λ h. cc, λ h. absurd h)
any_of_iff p (x ∷ xs) = elim (Bool-cases (p x)) [
  | inl yes_ ↦ (λ h. inl yes_, λ h. rw yes_ refl)
  | inr no_ ↦
      rw no_ (λ h. inr ((any_of_iff p xs).0 h), elim [ inl h ↦ cc | inr h ↦ (any_of_iff p xs).1 h ])
]

pub text_eq_iff : (s t : Text) → (text_eq s t ≡ true) ↔ (s ≡ t)
text_eq_iff s t = (text_eq→eq s t, λ e. rw e (text_eq_refl t))

pub has_text_iff : (set : List Text) (s : Text) → (has_text set s ≡ true) ↔ Any (λ t. t ≡ s) set
unfolding has_text
has_text_iff set s = (
  λ h. Any-mono _ (λ t. t ≡ s) (λ t. (text_eq_iff t s).0) set ((any_of_iff _ set).0 h),
  λ h. (any_of_iff _ set).1 (Any-mono (λ t. t ≡ s) _ (λ t. (text_eq_iff t s).1) set h),
)

pub has_chain_iff : (ids : List ℕ) (id : ℕ) → (has_chain ids id ≡ true) ↔ Any (λ n. n ≡ id) ids
unfolding has_chain
has_chain_iff ids id = (
  λ h. Any-mono _ (λ n. n ≡ id) (λ n. (==_iff n id).0) ids ((any_of_iff _ ids).0 h),
  λ h. (any_of_iff _ ids).1 (Any-mono (λ n. n ≡ id) _ (λ n. (==_iff n id).1) ids h),
)

has_text-same :
    (set : List Text) (t s : Text)
    → has_text set t ≡ true
    → text_eq t s ≡ true
    → has_text set s ≡ true
has_text-same set t s h e = subst (λ u. has_text set u ≡ true) (text_eq→eq t s e) h

distinct_from-has :
    (seen list : List Text) (s : Text)
    → (has_text (distinct_from seen list) s || has_text seen s)
      ≡ (has_text list s || has_text seen s)
unfolding distinct_from has_text
distinct_from-has seen [] s = refl
distinct_from-has seen (t ∷ list) s = elim (Bool-cases (has_text seen t)) [
  | inl old ↦
      rw old (ground (arith, distinct_from-has (t ∷ seen) list s, has_text-same seen t s old))
  | inr new ↦ rw new (ground (arith, distinct_from-has (t ∷ seen) list s))
]

pub set_of-has : (list : List Text) (s : Text) → has_text (set_of list) s ≡ has_text list s
unfolding set_of has_text
set_of-has list s = ground (arith, distinct_from-has [] list s)

-- What holds of a set holds of its list, and back.
pub All-of_has :
    (P : Text → Type 0) (list : List Text)
    → ((s : Text) → has_text list s ≡ true → P s) ↔ All P list
unfolding has_text
All-of_has P [] = (λ h. tt, λ h s m. cc)
All-of_has P (t ∷ list) = (
  λ h. (h t (rw (text_eq_refl t) refl), (All-of_has P list).0 (λ s m. h s (ground arith))),
  λ h s m. elim (Bool-cases (text_eq t s)) [
    | inl same ↦ subst P (text_eq→eq t s same) h.0
    | inr other ↦ (All-of_has P list).1 h.1 s (ground arith)
  ],
)

pub All-set_of : (P : Text → Type 0) (list : List Text) → All P (set_of list) ↔ All P list
All-set_of P list = (
  λ h. (All-of_has P list).0 (λ s m. (All-of_has P (set_of list)).1 h s (set_of-has list s ∙ m)),
  λ h.
      (All-of_has P (set_of list)).0
        (λ s m. (All-of_has P list).1 h s (sym (set_of-has list s) ∙ m)),
)

module _ {ℓ κ} {A : Type ℓ} {B : Type κ} (P : B → Type 0) (f : A → B) where
  pub All-map : (xs : List A) → All P (map f xs) ↔ All (λ x. P (f x)) xs
  All-map [] = (λ h. tt, λ h. tt)
  All-map (x ∷ xs) = (λ h. (h.0, (All-map xs).0 h.1), λ h. (h.0, (All-map xs).1 h.1))

  pub Any-map : (xs : List A) → Any P (map f xs) ↔ Any (λ x. P (f x)) xs
  Any-map [] = (λ h. h, λ h. h)
  Any-map (x ∷ xs) = (
    elim [ inl h ↦ inl h | inr h ↦ inr ((Any-map xs).0 h) ],
    elim [ inl h ↦ inl h | inr h ↦ inr ((Any-map xs).1 h) ],
  )

pub All-append_iff {ℓ} :
    {A : Type ℓ} (P : A → Type 0) (xs ys : List A) → All P (xs ++ ys) ↔ (All P xs × All P ys)
All-append_iff P [] ys = (λ h. (tt, h), λ h. h.1)
All-append_iff P (x ∷ xs) ys = (
  λ h. let (l, r) = (All-append_iff P xs ys).0 h.1 in ((h.0, l), r),
  λ h. All-append P (x ∷ xs) ys h.0 h.1,
)

-- The checks on the elements of a set pass exactly if `P` holds of the elements of its list.
pub set_checks_iff {ℓ} :
    {E : Type ℓ} (check : Text → Bool × E) (P : Text → Type 0)
    → ((s : Text) → ((check s).0 ≡ false) ↔ P s)
    → (f : Text → Text) (list : List Text)
    → All (λ c. c.0 ≡ false) (map check (set_of (map f list))) ↔ All (λ s. P (f s)) list
set_checks_iff check P each f list =
    let over_set = All-map (λ c. c.0 ≡ false) check (set_of (map f list)) in
    let of_list = All-set_of P (map f list) in
    let of_source = All-map P f list in
    (
      λ h. of_source.0 (of_list.0 (All-mono _ P (λ s. (each s).0) _ (over_set.0 h))),
      λ h. over_set.1 (All-mono P _ (λ s. (each s).1) _ (of_list.1 (of_source.1 h))),
    )
