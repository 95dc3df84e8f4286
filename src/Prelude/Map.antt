-- ===== src/Prelude/Map.antt =====
-- JavaScript's `Map`: its entries in the order of their insertion. A key that is written again keeps
-- its place.
use Prim.Native.Nat.{ℕ, ◌≤◌, ◌<◌, ◌+◌}
use mathlib.Core.Path.{◌≡◌, refl, sym, ap, ◌∙◌}
use mathlib.Core.Bool.{Bool, true, false}
use mathlib.Core.Logic.{◌↔◌, ◌⊎◌, inl, inr}
use mathlib.Core.Option.{Option, none, some}
use mathlib.Core.List.{List, [], ◌∷◌, map}
use native.Mathlib.Omega.{arith}
use nullark.Prelude.Tests.{◌==◌, if◌then◌else◌, Bool-cases, some-injective, ==_iff}
use nullark.Prelude.Lists.{length, Any}
use nullark.Prelude.Text.{Text, text_eq, text_eq→eq, text_eq_refl}

pub record Key (K : Type 0) : Type 0 where
  pub same : K → K → Bool
  pub same_iff : (a b : K) → (same a b ≡ true) ↔ (a ≡ b)

pub text_same_iff : (a b : Text) → (text_eq a b ≡ true) ↔ (a ≡ b)
text_same_iff a b = (text_eq→eq a b, λ e. rw e (text_eq_refl b))

abbrev pub nat_same : ℕ → ℕ → Bool
nat_same a b = a == b

pub nat_same_iff : (a b : ℕ) → (nat_same a b ≡ true) ↔ (a ≡ b)
nat_same_iff a b = ==_iff a b

instance abbrev pub text_key : Key Text
text_key = record { same = text_eq; same_iff = text_same_iff }

instance abbrev pub nat_key : Key ℕ
nat_key = record { same = nat_same; same_iff = nat_same_iff }

module _ {K : Type 0} ⦃key : Key K⦄ where
  pub same_trans : (i j k : K) → key.same i j ≡ true → key.same i k ≡ key.same j k
  same_trans i j k h = ap (λ x. key.same x k) ((key.same_iff i j).0 h)

  pub same_refl : (k : K) → key.same k k ≡ true
  same_refl k = (key.same_iff k k).1 refl

  apart : (i j k : K) → key.same i k ≡ false → key.same i j ≡ true → key.same k j ≡ false
  apart i j k h e = elim (Bool-cases (key.same k j)) [
    | inl e' ↦
        let back = (key.same_iff i k).1 ((key.same_iff i j).0 e ∙ sym ((key.same_iff k j).0 e')) in
        cc
    | inr e' ↦ e'
  ]

module _ {K V : Type 0} ⦃key : Key K⦄ where
  -- `m.get(k)`, `m.set(k, v)`, `m.delete(k)` and `[...m.keys()]`
  unfoldable pub get : List (K × V) → K → Option V
  get [] k = none
  get ((j, v) ∷ m) k = if key.same j k then some v else get m k

  unfoldable pub put : List (K × V) → K → V → List (K × V)
  put [] k v = (k, v) ∷ []
  put ((j, w) ∷ m) k v = let rest = put m k v in if key.same j k then (j, v) ∷ m else (j, w) ∷ rest

  unfoldable pub delete : List (K × V) → K → List (K × V)
  delete [] k = []
  delete ((j, v) ∷ m) k = let rest = delete m k in if key.same j k then rest else (j, v) ∷ rest

  pub get-put :
      (m : List (K × V)) (k : K) (v : V) (j : K)
      → get (put m k v) j ≡ (if key.same k j then some v else get m j)
  unfolding get put
  get-put [] k v j = refl
  get-put ((i, w) ∷ m) k v j = elim (Bool-cases (key.same i k)) [
    | inl e ↦ rw (e, same_trans i k j e) (ground arith)
    | inr e ↦ rw e (ground (arith, get-put m k v j, apart i j k e))
  ]

  pub get-delete :
      (m : List (K × V)) (k j : K) → get (delete m k) j ≡ (if key.same k j then none else get m j)
  unfolding get delete
  get-delete [] k j = ground arith
  get-delete ((i, w) ∷ m) k j = elim (Bool-cases (key.same i k)) [
    | inl e ↦ rw (e, same_trans i k j e) (ground (arith, get-delete m k j))
    | inr e ↦ rw e (ground (arith, get-delete m k j, apart i j k e))
  ]

  pub length-put : (m : List (K × V)) (k : K) (v : V) → length (put m k v) ≤ length m + 1
  unfolding put
  length-put [] k v = omega arith
  length-put ((j, w) ∷ m) k v = ground (arith, length-put m k v)

  pub length-delete : (m : List (K × V)) (k : K) → length (delete m k) ≤ length m
  unfolding delete
  length-delete [] k = omega arith
  length-delete ((j, w) ∷ m) k = ground (arith, length-delete m k)

  abbrev pub keys : List (K × V) → List K
  keys m = map (λ e. e.0) m

  pub keys_iff :
      (m : List (K × V)) (k : K) → Any (λ j. j ≡ k) (keys m) ↔ ((v : V) × (get m k ≡ some v))
  unfolding get
  keys_iff [] k = (λ h. absurd h, λ h. cc (h.1))
  keys_iff ((j, w) ∷ m) k = elim (Bool-cases (key.same j k)) [
    | inl e ↦ rw e (λ h. (w, refl), λ h. inl ((key.same_iff j k).0 e))
    | inr e ↦ rw e (
      elim [ inl h ↦ cc (e, (key.same_iff j k).1 h) | inr h ↦ (keys_iff m k).0 h ],
      λ h. inr ((keys_iff m k).1 h),
    )
  ]

  -- A key that is the first of a map is gone with its removal, and the map is shorter.
  pub length-delete_head :
      (j : K) (v : V) (m : List (K × V)) → length (delete ((j, v) ∷ m) j) < length ((j, v) ∷ m)
  unfolding delete
  length-delete_head j v m = rw (same_refl j) (omega (arith, length-delete m j))

  -- What is read after a removal was there before it.
  pub delete-get :
      (m : List (K × V)) (k j : K) (v : V) → get (delete m k) j ≡ some v → get m j ≡ some v
  delete-get m k j v h = ground (arith, get-delete m k j)

  pub length-delete_present :
      (m : List (K × V)) (k : K) (v : V) → get m k ≡ some v → length (delete m k) < length m
  unfolding get delete
  length-delete_present [] k v h = cc
  length-delete_present ((j, w) ∷ m) k v h =
      ground (arith, length-delete m k, length-delete_present m k v)

  -- What is read after a write: the value under the key, or what was there under another one.
  pub put-get :
      (m : List (K × V)) (k : K) (v : V) (j : K) (w : V)
      → get (put m k v) j ≡ some w
      → ((k ≡ j) × (v ≡ w)) ⊎ ((key.same k j ≡ false) × (get m j ≡ some w))
  put-get m k v j w h = elim (Bool-cases (key.same k j)) [
    | inl e ↦
        let new = get-put m k v j ∙ rw e refl in
        inl ((key.same_iff k j).0 e, some-injective (sym new ∙ h))
    | inr e ↦ let old = get-put m k v j ∙ rw e refl in inr (e, sym old ∙ h)
  ]

  -- A key that is read after a removal is another one.
  pub delete-other :
      (m : List (K × V)) (k j : K) (v : V) → get (delete m k) j ≡ some v → key.same k j ≡ false
  delete-other m k j v h = ground (arith, get-delete m k j)
