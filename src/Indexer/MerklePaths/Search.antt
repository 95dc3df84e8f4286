-- ===== src/Indexer/MerklePaths/Search.antt =====
-- services/indexer/src/merklePaths.ts: `hasLeafInRange`, a binary search for the first leaf index that
-- is not below the range.
use nullark.Prelude.{
  ℕ, zero, suc, ◌+◌, ◌/◌, ◌≤◌, ◌<◌, ◌≡◌, refl, ◌↔◌, true, false, none, some, inl, inr, List, [],
  ◌∷◌, arith, ltb, Bool-cases, Option-cases, lt→ltb, ltb→lt, ltb→le, length, get_elem?, get_or, All,
  Any, IsSorted,
}
use nullark.Indexer.MerklePaths.{search_from, below, has_leaf_in_range}

abbrev pub InOrder : List ℕ → Type 0
InOrder xs = IsSorted (λ a b. a ≤ b) xs

All-get_or : (x : ℕ) (xs : List ℕ) (i : ℕ) → All (λ y. x ≤ y) xs → i < length xs → x ≤ get_or xs i 0
All-get_or x [] i h b = elim b [ ]
All-get_or x (y ∷ ys) zero h b = h.0
All-get_or x (y ∷ ys) (suc i) h b = All-get_or x ys i h.1 (omega arith)

get_or-InOrder :
    (xs : List ℕ) (i j : ℕ) → InOrder xs → i ≤ j → j < length xs → get_or xs i 0 ≤ get_or xs j 0
get_or-InOrder [] i j s h b = elim b [ ]
get_or-InOrder (x ∷ xs) zero zero s h b = omega arith
get_or-InOrder (x ∷ xs) zero (suc j) s h b = All-get_or x xs j s.0 (omega arith)
get_or-InOrder (x ∷ xs) (suc i) zero s h b = absurd (omega arith)
get_or-InOrder (x ∷ xs) (suc i) (suc j) s h b =
    get_or-InOrder xs i j s.1 (omega arith) (omega arith)

module _ (P : ℕ → Type 0) where
  get_or-Any : (xs : List ℕ) (i : ℕ) → i < length xs → P (get_or xs i 0) → Any P xs
  get_or-Any [] i b p = elim b [ ]
  get_or-Any (x ∷ xs) zero b p = inl p
  get_or-Any (x ∷ xs) (suc i) b p = inr (get_or-Any xs i (omega arith) p)

  Any-get_or : (xs : List ℕ) → Any P xs → (i : ℕ) × (i < length xs) × P (get_or xs i 0)
  Any-get_or [] h = absurd h
  Any-get_or (x ∷ xs) (inl p) = (0, omega arith, p)
  Any-get_or (x ∷ xs) (inr h) = let (i, b, p) = Any-get_or xs h in (suc i, omega arith, p)

get_elem?-none : (xs : List ℕ) (i : ℕ) → get_elem? xs i ≡ none → length xs ≤ i
get_elem?-none [] i h = omega arith
get_elem?-none (x ∷ xs) zero h = cc
get_elem?-none (x ∷ xs) (suc i) h = omega (arith, get_elem?-none xs i h)

get_elem?-some :
    (xs : List ℕ) (i v : ℕ) → get_elem? xs i ≡ some v → (i < length xs) × (get_or xs i 0 ≡ v)
get_elem?-some [] i v h = cc
get_elem?-some (x ∷ xs) zero v h = (omega arith, ground (arith, h))
get_elem?-some (x ∷ xs) (suc i) v h = let (b, e) = get_elem?-some xs i v h in (omega arith, e)

-- `r` splits the indexes into those below `start` and those not below it.
record Splits (xs : List ℕ) (start r : ℕ) : Type 0 where
  inside : r ≤ length xs
  before : (i : ℕ) → i < r → get_or xs i 0 < start
  after : (i : ℕ) → r ≤ i → i < length xs → start ≤ get_or xs i 0

module _ (xs : List ℕ) (sorted : InOrder xs) (start : ℕ) where
  search_from-Splits :
      (fuel lo hi : ℕ)
      → hi ≤ lo + fuel
      → lo ≤ hi
      → hi ≤ length xs
      → ((i : ℕ) → i < lo → get_or xs i 0 < start)
      → ((i : ℕ) → hi ≤ i → i < length xs → start ≤ get_or xs i 0)
      → (r : ℕ) × (search_from fuel xs start lo hi ≡ some r) × Splits xs start r
  unfolding search_from
  search_from-Splits zero lo hi f o b l u =
      let done : ltb lo hi ≡ false = ground arith in
      (
        lo,
        rw done refl,
        record { inside = omega arith; before = l; after = λ i h k. u i (omega arith) k },
      )
  search_from-Splits (suc fuel) lo hi f o b l u = elim (Bool-cases (ltb lo hi)) [
    | inr done ↦ (
      lo,
      rw done refl,
      record { inside = omega arith; before = l; after = λ i h k. u i (ground (arith, done, h)) k },
    )
    | inl more ↦
        let open_ : lo < hi = ground (arith, more) in
        elim (Bool-cases (ltb (get_or xs ((lo + hi) / 2) 0) start)) [
          | inl small ↦
              let bound : get_or xs ((lo + hi) / 2) 0 < start = ground (arith, small) in
              rw (more, small)
                (search_from-Splits fuel ((lo + hi) / 2 + 1) hi (omega arith) (omega arith) b
                  (λ i h.
                    omega (
                      arith,
                      get_or-InOrder xs i ((lo + hi) / 2) sorted (omega arith) (omega arith),
                    ))
                  u)
          | inr large ↦
              let bound : start ≤ get_or xs ((lo + hi) / 2) 0 = ground (arith, large) in
              rw (more, large)
                (search_from-Splits fuel lo ((lo + hi) / 2) (omega arith) (omega arith)
                  (omega arith) l
                  (λ i h k. omega (arith, get_or-InOrder xs ((lo + hi) / 2) i sorted h k)))
        ]
  ]

  -- The element at the split decides.
  below_iff :
      (end r : ℕ)
      → Splits xs start r
      → (below (get_elem? xs r) end ≡ true) ↔ Any (λ i. (start ≤ i) × (i < end)) xs
  below_iff end r s = elim (Option-cases (get_elem? xs r)) [
    | inl e ↦
        let outside = get_elem?-none xs r e in
        rw e (
          λ h. cc,
          λ h.
              let (i, b, p) = Any-get_or (λ i. (start ≤ i) × (i < end)) xs h in
              absurd (omega (arith, s.before i (omega arith))),
        )
    | inr (first, e) ↦
        let (b, v) = get_elem?-some xs r first e in
        rw e (
          λ h.
              get_or-Any (λ i. (start ≤ i) × (i < end)) xs r b
                (s.after r (omega arith) b, ground (arith, h, v)),
          λ h.
              let (i, k, p) = Any-get_or (λ i. (start ≤ i) × (i < end)) xs h in
              lt→ltb _ _ (first_below end r first i b v s k p),
        )
  ]
    where
      first_below :
          (end r first i : ℕ)
          → r < length xs
          → get_or xs r 0 ≡ first
          → Splits xs start r
          → i < length xs
          → (start ≤ get_or xs i 0) × (get_or xs i 0 < end)
          → first < end
      first_below end r first i b v s k p = elim (Bool-cases (ltb i r)) [
        | inl less ↦ absurd (omega (arith, s.before i (ltb→lt i r less)))
        | inr more ↦ omega (arith, get_or-InOrder xs r i sorted (ltb→le i r more) k)
      ]

  -- The search ends, at the place that splits the indexes.
  search-Splits :
      (r : ℕ) × (search_from (length xs) xs start 0 (length xs) ≡ some r) × Splits xs start r
  search-Splits =
      search_from-Splits (length xs) 0 (length xs) (omega arith) (omega arith) (omega arith)
        (λ i h. absurd (omega arith)) (λ i h k. absurd (omega arith))

  -- For indexes in order, the search ends within its fuel, which is the number of indexes, and finds out
  -- whether one of them lies in the range.
  pub has_leaf_in_range_iff :
      (end : ℕ)
      → ((r : ℕ) × (search_from (length xs) xs start 0 (length xs) ≡ some r))
        × ((has_leaf_in_range xs start end ≡ true) ↔ Any (λ i. (start ≤ i) × (i < end)) xs)
  unfolding has_leaf_in_range
  has_leaf_in_range_iff end =
      let (r, ends, splits) = search-Splits in ((r, ends), rw ends (below_iff end r splits))
