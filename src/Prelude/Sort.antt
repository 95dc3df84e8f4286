-- ===== src/Prelude/Sort.antt =====
-- `Array.prototype.sort` with a comparator: a stable sort, read through the test
-- `before a b`, which is `compare(a, b) < 0`.
use mathlib.Core.Path.{◌≡◌}
use mathlib.Core.Bool.{Bool, true, false}
use mathlib.Core.Logic.{◌↔◌, ◌⊎◌, inl, inr}
use mathlib.Core.List.{List, [], ◌∷◌}
use nullark.Prelude.Tests.{if◌then◌else◌, Bool-cases}
use nullark.Prelude.Lists.{All, Any, All-mono, IsSorted}

module _ {ℓ} {A : Type ℓ} (before : A → A → Bool) where
  -- Into a sorted list, ahead of the elements that it ties with.
  unfoldable pub insert_by : A → List A → List A
  insert_by x [] = x ∷ []
  insert_by x (y ∷ ys) = let rest = insert_by x ys in if before y x then y ∷ rest else x ∷ y ∷ ys

  unfoldable pub sort_by : List A → List A
  unfolding insert_by
  sort_by [] = []
  sort_by (x ∷ xs) = insert_by x (sort_by xs)

  module _ (P : A → Type 0) where
    All-insert_by : (x : A) (ys : List A) → All P (insert_by x ys) ↔ (P x × All P ys)
    unfolding insert_by
    All-insert_by x [] = (λ h. h, λ h. h)
    All-insert_by x (y ∷ ys) = elim (Bool-cases (before y x)) [
      | inl e ↦
          let ih = All-insert_by x ys in
          rw e (λ h. ((ih.0 h.1).0, (h.0, (ih.0 h.1).1)), λ h. (h.1.0, ih.1 (h.0, h.1.1)))
      | inr e ↦ rw e (λ h. h, λ h. h)
    ]

    pub All-sort_by : (xs : List A) → All P (sort_by xs) ↔ All P xs
    unfolding sort_by
    All-sort_by [] = (λ h. h, λ h. h)
    All-sort_by (x ∷ xs) =
        let at = All-insert_by x (sort_by xs) in
        let ih = All-sort_by xs in (λ h. ((at.0 h).0, ih.0 (at.0 h).1), λ h. at.1 (h.0, ih.1 h.1))

    Any-insert_by : (x : A) (ys : List A) → Any P (insert_by x ys) ↔ (P x ⊎ Any P ys)
    unfolding insert_by
    Any-insert_by x [] = (λ h. h, λ h. h)
    Any-insert_by x (y ∷ ys) = elim (Bool-cases (before y x)) [
      | inl e ↦ rw e (swap_in (Any-insert_by x ys))
      | inr e ↦ rw e (λ h. h, λ h. h)
    ]
      where
        swap_in : {Q R S T : Type 0} → (Q ↔ (R ⊎ S)) → ((T ⊎ Q) ↔ (R ⊎ (T ⊎ S)))
        swap_in i = (
          elim [
            | inl t ↦ inr (inl t)
            | inr q ↦ elim (i.0 q) [ inl r ↦ inl r | inr s ↦ inr (inr s) ]
          ],
          elim [
            | inl r ↦ inr (i.1 (inl r))
            | inr d ↦ elim d [ inl t ↦ inl t | inr s ↦ inr (i.1 (inr s)) ]
          ],
        )

    -- Sorting keeps the elements.
    pub Any-sort_by : (xs : List A) → Any P (sort_by xs) ↔ Any P xs
    unfolding sort_by
    Any-sort_by [] = (λ h. h, λ h. h)
    Any-sort_by (x ∷ xs) =
        let at = Any-insert_by x (sort_by xs) in
        let ih = Any-sort_by xs in
        (
          λ h. elim (at.0 h) [ inl p ↦ inl p | inr a ↦ inr (ih.0 a) ],
          elim [ inl p ↦ at.1 (inl p) | inr a ↦ at.1 (inr (ih.1 a)) ],
        )

  module _ (R : A → A → Type 0) (trans : (a b c : A) → R a b → R b c → R a c)
      (if_before : (a b : A) → before a b ≡ true → R a b)
      (if_not_before : (a b : A) → before a b ≡ false → R b a) where
    insert_by-IsSorted : (x : A) (ys : List A) → IsSorted R ys → IsSorted R (insert_by x ys)
    unfolding insert_by
    insert_by-IsSorted x [] h = (tt, tt)
    insert_by-IsSorted x (y ∷ ys) h = elim (Bool-cases (before y x)) [
      | inl e ↦
          rw e ((All-insert_by (R y) x ys).1 (if_before y x e, h.0), insert_by-IsSorted x ys h.1)
      | inr e ↦
          let x_y = if_not_before y x e in
          rw e ((x_y, All-mono (R y) (R x) (λ z q. trans x y z x_y q) ys h.0), h)
    ]

    pub sort_by-IsSorted : (xs : List A) → IsSorted R (sort_by xs)
    unfolding sort_by
    sort_by-IsSorted [] = tt
    sort_by-IsSorted (x ∷ xs) = insert_by-IsSorted x (sort_by xs) (sort_by-IsSorted xs)
