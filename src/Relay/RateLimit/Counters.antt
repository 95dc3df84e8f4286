-- ===== src/Relay/RateLimit/Counters.antt =====
-- What a request does to its counters.
use nullark.Prelude.{
  ℕ, ◌+◌, ◌≤◌, ◌≡◌, ◌≢◌, refl, ap, ◌∙◌, inl, inr, true, false, some, List, [], ◌∷◌, arith, ltb, leb,
  if◌then◌else◌, Bool-cases, ltb→le, ◌⊎◌, All, Any, tests, All-mono, IsSorted,
}
use nullark.Prelude.Number.{max_safe_integer}
use nullark.Prelude.Text.{Text, text_eq, text_eq_refl, text_eq_comm, to_string, parse_int}
use nullark.Prelude.Text.Decimal.{parse_int-to_string, to_string-cons}
use nullark.Relay.Store.{KvStore}
use nullark.Relay.RateLimit.{
  Check, LimitLabel, RelayRateLimitDecision, count_of, positive_safe, read_count, exceeded_labels,
  put_counts,
}
use nullark.Relay.RateLimit.Keys.{Differ}

count_of-cons :
    (c : ℕ) (raw : Text) → count_of (some (c ∷ raw)) ≡ positive_safe (parse_int 10 (c ∷ raw))
count_of-cons c raw = refl

count_of-to_string : (n : ℕ) → n ≤ max_safe_integer → count_of (some (to_string 10 n)) ≡ n
count_of-to_string n h =
    let (c, rest, e) = to_string-cons n in
    let parsed = parse_int-to_string n in
    let small : leb n max_safe_integer ≡ true = ground arith in
    rw e (ap positive_safe (rw e at parsed) ∙ rw small refl)

module _ (store : KvStore Text) where
  open store use {State, get, put, get-put}

  read_count-put :
      (s : State) (key : Text) (n ttl : ℕ) (other : Text)
      → n ≤ max_safe_integer
      → read_count store (put key (to_string 10 n) ttl s) other
        ≡ (if text_eq key other then n else read_count store s other)
  unfolding read_count
  read_count-put s key n ttl other h = elim (Bool-cases (text_eq key other)) [
    | inl same ↦ rw (get-put s key (to_string 10 n) ttl other, same) (count_of-to_string n h)
    | inr differs ↦ rw (get-put s key (to_string 10 n) ttl other, differs)
  ]

  -- There is room for one more in each counter.
  abbrev pub HasRoom : State → Check → Type 0
  HasRoom s check = read_count store s check.key + 1 ≤ max_safe_integer

  pub put_counts-other :
      (ttl : ℕ) (before : State) (checks : List Check) (s : State) (key : Text)
      → All (HasRoom before) checks
      → All (λ check. text_eq check.key key ≡ false) checks
      → read_count store (put_counts store ttl before checks s) key ≡ read_count store s key
  unfolding put_counts
  put_counts-other ttl before [] s key room h = refl
  put_counts-other ttl before (check ∷ checks) s key room h =
      put_counts-other ttl before checks _ key room.1 h.1
      ∙ rw (read_count-put s check.key (read_count store before check.key + 1) ttl key room.0, h.0)

  pub put_counts-own :
      (ttl : ℕ) (before : State) (checks : List Check) (s : State)
      → All (HasRoom before) checks
      → IsSorted Differ checks
      → All
          (λ check.
            read_count store (put_counts store ttl before checks s) check.key
            ≡ read_count store before check.key + 1)
          checks
  unfolding put_counts
  put_counts-own ttl before [] s room d = tt
  put_counts-own ttl before (check ∷ checks) s room d =
      let next = read_count store before check.key + 1 in
      (
        put_counts-other ttl before checks _ check.key room.1 (
              All-mono (Differ check) (λ c. text_eq c.key check.key ≡ false)
                (λ c e. text_eq_comm c.key check.key ∙ e) checks d.0)
            ∙ rw (read_count-put s check.key next ttl check.key room.0, text_eq_refl check.key),
        put_counts-own ttl before checks _ room.1 d.1,
      )

  -- Where no label is exceeded, every counter is below its limit.
  pub fits_of_no_label :
      (s : State) (checks : List Check)
      → exceeded_labels store s checks ≡ []
      → All (λ check. read_count store s check.key + 1 ≤ check.limit) checks
  unfolding exceeded_labels
  fits_of_no_label s [] e = tt
  fits_of_no_label s (check ∷ checks) e =
      elim (Bool-cases (ltb check.limit (read_count store s check.key + 1))) [
        | inl over ↦ absurd (ground arith)
        | inr fits ↦ (ltb→le _ _ fits, fits_of_no_label s checks (ground arith))
      ]

  -- Where a label is exceeded, a counter has reached its limit.
  pub full_of_label :
      (s : State) (checks : List Check) (label : LimitLabel) (labels : List LimitLabel)
      → exceeded_labels store s checks ≡ label ∷ labels
      → Any (λ check. check.limit ≤ read_count store s check.key) checks
  unfolding exceeded_labels
  full_of_label s [] label labels e = absurd (ground arith)
  full_of_label s (check ∷ checks) label labels e =
      elim (Bool-cases (ltb check.limit (read_count store s check.key + 1))) [
        | inl over ↦ inl (omega (tests, over))
        | inr fits ↦ inr (full_of_label s checks label labels (rw fits at e))
      ]

  -- The counters of a request before and after it.
  abbrev pub CountsOne : State → State → Check → Type 0
  CountsOne before after check =
      (read_count store after check.key ≡ read_count store before check.key + 1)
      × (read_count store after check.key ≤ check.limit)

  -- The effect of a decision on the counters: an allowed request adds one to each of its four counters
  -- and leaves each within its limit; a refused one changes nothing, and one of its counters is full.
  abbrev pub Effect : List Check → State → RelayRateLimitDecision × State → Type 0
  Effect checks before (decision, after) =
      ((decision.allowed ≡ true)
        × All (CountsOne before after) checks
        × ((key : Text)
            → All (λ check. text_eq check.key key ≡ false) checks
            → read_count store after key ≡ read_count store before key))
      ⊎ ((decision.allowed ≡ false)
          × (after ≡ before)
          × (decision.exceeded ≢ [])
          × Any (λ check. check.limit ≤ read_count store before check.key) checks)
