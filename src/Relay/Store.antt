-- ===== src/Relay/Store.antt =====
-- The key-value store that the relayer is given (`RelayRateLimitStore`, `RelayIdempotencyStore`): a
-- service outside the repository, so a parameter, with the values that it holds as another.
use nullark.Prelude.{
  ℕ, ◌-◌, ◌≡◌, refl, sym, arith, Bool, true, false, inl, inr, Bool-cases, Option, none, some, ltb,
  if◌then◌else◌, List, [], ◌∷◌, map,
}
use nullark.Prelude.Text.{Text, text_eq}

-- `put` takes the key, the value and the time to live in seconds (`expirationTtl`); `wait` lets seconds
-- pass; `left` is how long an entry still lives. What is read after a write is what was written under
-- the same key, and before it under any other. An entry is read until its time is over, and not from
-- then on.
pub record KvStore (V : Type 0) : Type 1 where
  pub State : Type 0
  pub get : State → Text → Option V
  pub put : Text → V → ℕ → State → State
  pub wait : ℕ → State → State
  pub left : State → Text → ℕ
  pub get-put :
      (s : State) (key : Text) (value : V) (ttl : ℕ) (other : Text)
      → get (put key value ttl s) other ≡ (if text_eq key other then some value else get s other)
  pub left-put :
      (s : State) (key : Text) (value : V) (ttl : ℕ) (other : Text)
      → left (put key value ttl s) other ≡ (if text_eq key other then ttl else left s other)
  pub get-wait :
      (seconds : ℕ) (s : State) (key : Text)
      → get (wait seconds s) key ≡ (if ltb seconds (left s key) then get s key else none)
  pub left-wait :
      (seconds : ℕ) (s : State) (key : Text) → left (wait seconds s) key ≡ left s key - seconds

-- A store in memory: the entries, the last one first, with the seconds that are left of them. An entry
-- whose time is over holds no value.
pub record Entry (V : Type 0) : Type 0 where
  pub key : Text
  pub value : Option V
  pub seconds_left : ℕ

module _ {V : Type 0} where
  unfoldable pub lookup : List (Entry V) → Text → Option V
  lookup [] other = none
  lookup (entry ∷ entries) other =
      if text_eq entry.key other then entry.value else lookup entries other

  unfoldable pub time_left : List (Entry V) → Text → ℕ
  time_left [] other = 0
  time_left (entry ∷ entries) other =
      if text_eq entry.key other then entry.seconds_left else time_left entries other

  abbrev pub aged : ℕ → Entry V → Entry V
  aged seconds entry = record entry {
    value = if ltb seconds entry.seconds_left then entry.value else none;
    seconds_left = entry.seconds_left - seconds;
  }

  unfoldable pub pass : ℕ → List (Entry V) → List (Entry V)
  pass seconds entries = map (aged seconds) entries

  pub lookup-put :
      (entries : List (Entry V)) (key : Text) (value : V) (ttl : ℕ) (other : Text)
      → lookup (record { key = key; value = some value; seconds_left = ttl } ∷ entries) other
        ≡ (if text_eq key other then some value else lookup entries other)
  unfolding lookup
  lookup-put entries key value ttl other = refl

  pub time_left-put :
      (entries : List (Entry V)) (key : Text) (value : V) (ttl : ℕ) (other : Text)
      → time_left (record { key = key; value = some value; seconds_left = ttl } ∷ entries) other
        ≡ (if text_eq key other then ttl else time_left entries other)
  unfolding time_left
  time_left-put entries key value ttl other = refl

  none-if : (b : Bool) → ◌≡◌ {A = Option V} (if b then none else none) none
  none-if true = refl
  none-if false = refl

  pub lookup-pass :
      (seconds : ℕ) (entries : List (Entry V)) (other : Text)
      → lookup (pass seconds entries) other
        ≡ (if ltb seconds (time_left entries other) then lookup entries other else none)
  unfolding lookup time_left pass
  lookup-pass seconds [] other = sym (none-if (ltb seconds 0))
  lookup-pass seconds (entry ∷ entries) other = elim (Bool-cases (text_eq entry.key other)) [
    | inl e ↦ rw e refl
    | inr e ↦ rw e (lookup-pass seconds entries other)
  ]

  pub time_left-pass :
      (seconds : ℕ) (entries : List (Entry V)) (other : Text)
      → time_left (pass seconds entries) other ≡ time_left entries other - seconds
  unfolding time_left pass
  time_left-pass seconds [] other = omega arith
  time_left-pass seconds (entry ∷ entries) other = elim (Bool-cases (text_eq entry.key other)) [
    | inl e ↦ rw e refl
    | inr e ↦ rw e (time_left-pass seconds entries other)
  ]

abbrev pub memory_store : (V : Type 0) → KvStore V
memory_store V = record {
  State = List (Entry V);
  get = lookup;
  put = λ key value ttl s. record { key = key; value = some value; seconds_left = ttl } ∷ s;
  wait = pass;
  left = time_left;
  get-put = lookup-put;
  left-put = time_left-put;
  get-wait = lookup-pass;
  left-wait = time_left-pass;
}
