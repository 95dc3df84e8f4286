-- ===== src/Sdk/RootLogs/Pages.antt =====
-- The ranges of `fetchRootAcceptedLogs` cover the blocks once, in order.
use mathlib.Core.List.{append_assoc}
use nullark.Prelude.{
  ℕ, zero, suc, ◌+◌, ◌-◌, ◌≤◌, ◌<◌, ◌≡◌, ◌≢◌, ◌∙◌, refl, ap, inl, inr, Bool, true, false, List, [],
  ◌++◌, Option, none, some, ltb, Result, ok, err, ◌>>=◌, ◌>>◌, throw_if, Bool-cases, arith, ltb→lt,
  ltb→le, ok-injective,
}
use nullark.Prelude.Int.{pos, negsuc}
use nullark.Prelude.Number.{Number, int, not_integer}
use nullark.Prelude.Text.{Text}
use nullark.Sdk.Merkle.Chain.{big_int}
use nullark.Sdk.RootLogs.{
  RawRootAcceptedRpcLog, RootLogsError, out_of_fuel, from_block_not_a_quantity,
  to_block_not_a_quantity, not_a_big_int, is_block_quantity, given_or,
}
use nullark.Sdk.RootLogs.Fetch.{
  Runtime, FetchInput, LogFilter, answered, filter_of, chunk_end, fetch_from, chunk_size_of,
  fetch_root_accepted_logs, is_other_text, latest_block_of, is_big_int,
}

-- The logs of `count` blocks from a block on, in the order of the blocks.
abbrev pub logs_of_blocks : (ℕ → List RawRootAcceptedRpcLog) → ℕ → ℕ → List RawRootAcceptedRpcLog
logs_of_blocks logs_of first zero = []
logs_of_blocks logs_of first (suc count) = logs_of first ++ logs_of_blocks logs_of (suc first) count

logs_of_blocks-append :
    (logs_of : ℕ → List RawRootAcceptedRpcLog) (first m n : ℕ)
    → logs_of_blocks logs_of first m ++ logs_of_blocks logs_of (first + m) n
      ≡ logs_of_blocks logs_of first (m + n)
logs_of_blocks-append logs_of first zero n =
    let same : first + 0 ≡ first = omega arith in
    let none_more : 0 + n ≡ n = omega arith in rw (same, none_more) refl
logs_of_blocks-append logs_of first (suc m) n =
    let shifted : first + suc m ≡ suc first + m = omega arith in
    let counts : suc m + n ≡ suc (m + n) = omega arith in
    rw (shifted, counts)
      (append_assoc (logs_of first) (logs_of_blocks logs_of (suc first) m)
          (logs_of_blocks logs_of (suc first + m) n)
        ∙ ap (λ logs. logs_of first ++ logs) (logs_of_blocks-append logs_of (suc first) m n))

-- The end of a range, by the number of blocks behind its first one.
chunk_end_lem :
    (size latest cursor : ℕ)
    → 0 < size
    → cursor ≤ latest
    → (n : ℕ) × (chunk_end size latest cursor ≡ cursor + n) × (cursor + n ≤ latest)
chunk_end_lem size latest cursor p h = elim (Bool-cases (ltb latest (cursor + size))) [
  | inl e ↦
      let same : latest ≡ cursor + (latest - cursor) = omega arith in
      (latest - cursor, rw e same, omega (arith, same))
  | inr e ↦ let below = ltb→le latest (cursor + size) e in (size, rw e refl, below)
]

err-injective :
    {A : Type 0} {e e' : RootLogsError} → ◌≡◌ {A = Result RootLogsError A} (err e) (err e') → e ≡ e'
err-injective h = cc

-- A request and the rest of the loop: where the rest ends, the whole does.
then_rest-ends :
    (answer : Result Text (List RawRootAcceptedRpcLog))
    (rest : Result RootLogsError (List RawRootAcceptedRpcLog))
    → rest ≢ err out_of_fuel
    → (answered answer >>= λ result. rest >>= λ logs. ok (result ++ logs)) ≢ err out_of_fuel
then_rest-ends (err message) rest h e = cc
then_rest-ends (ok result) (ok logs) h e = cc
then_rest-ends (ok result) (err e') h e = h e

module _ (topic : Text) (block_number : Result Text Text)
    (get_logs : LogFilter → Result Text (List RawRootAcceptedRpcLog)) (pool : Text) (size : ℕ)
    (positive : 0 < size) where
  module _ (logs_of : ℕ → List RawRootAcceptedRpcLog)
      (served : (first n : ℕ)
        → get_logs (filter_of topic pool first (first + n))
          ≡ ok (logs_of_blocks logs_of first (suc n))) where
    fetch_from-blocks :
        (latest fuel cursor : ℕ)
        → suc latest ≤ cursor + fuel
        → fetch_from topic block_number get_logs pool size latest fuel cursor
          ≡ ok (logs_of_blocks logs_of cursor (suc latest - cursor))
    unfolding fetch_from
    fetch_from-blocks latest zero cursor h =
        let past : ltb latest cursor ≡ true = ground arith in
        let none_left : suc latest - cursor ≡ 0 = omega arith in rw (past, none_left) refl
    fetch_from-blocks latest (suc fuel) cursor h = elim (Bool-cases (ltb latest cursor)) [
      | inl e ↦
          let past = ltb→lt latest cursor e in
          let none_left : suc latest - cursor ≡ 0 = omega arith in rw (e, none_left) refl
      | inr e ↦
          let (n, at, below) = chunk_end_lem size latest cursor positive (ltb→le latest cursor e) in
          let ih = fetch_from-blocks latest fuel (cursor + n + 1) (omega arith) in
          let joined =
            logs_of_blocks-append logs_of cursor (suc n) (suc latest - (cursor + n + 1)) in
          let next : cursor + suc n ≡ cursor + n + 1 = omega arith in
          let left : suc n + (suc latest - (cursor + n + 1)) ≡ suc latest - cursor = omega arith in
          rw (e, at, served cursor n, ih) (ap ok (rw (next, left) at joined))
    ]

  fetch_from-ends :
      (latest fuel cursor : ℕ)
      → suc latest ≤ cursor + fuel
      → fetch_from topic block_number get_logs pool size latest fuel cursor ≢ err out_of_fuel
  unfolding fetch_from
  fetch_from-ends latest zero cursor h e =
      let past : ltb latest cursor ≡ true = ground arith in let ended = rw past at e in cc
  fetch_from-ends latest (suc fuel) cursor h e = elim (Bool-cases (ltb latest cursor)) [
    | inl past ↦ let ended = rw past at e in cc
    | inr more ↦
        let (n, at, below) =
          chunk_end_lem size latest cursor positive (ltb→le latest cursor more) in
        let ih = fetch_from-ends latest fuel (cursor + n + 1) (omega arith) in
        let answer = get_logs (filter_of topic pool cursor (cursor + n)) in
        then_rest-ends answer _ ih (rw (more, at) at e)
  ]

chunk_size_of-positive : (o : Option Number) (size : ℕ) → chunk_size_of o ≡ ok size → 0 < size
unfolding chunk_size_of
chunk_size_of-positive none size h = let same = ok-injective h in omega (arith, same)
chunk_size_of-positive (some (int (pos zero))) size h = cc
chunk_size_of-positive (some (int (pos (suc n)))) size h =
    let same = ok-injective h in omega (arith, same)
chunk_size_of-positive (some (int (negsuc n))) size h = cc
chunk_size_of-positive (some (not_integer n)) size h = cc

-- A step that does not run out of fuel, before others that do not.
bind-ends :
    {A B : Type 0} (m : Result RootLogsError A) (f : A → Result RootLogsError B)
    → m ≢ err out_of_fuel
    → ((a : A) → m ≡ ok a → f a ≢ err out_of_fuel)
    → (m >>= f) ≢ err out_of_fuel
bind-ends (ok a) f h k = k a refl
bind-ends (err e) f h k = λ e'. h (rw (err-injective e') refl)

guard-ends :
    {B : Type 0} (test : Bool) (e : RootLogsError) (m : Result RootLogsError B)
    → e ≢ out_of_fuel
    → m ≢ err out_of_fuel
    → (throw_if test e >> m) ≢ err out_of_fuel
guard-ends true e m h k = λ e'. h (err-injective e')
guard-ends false e m h k = k

chunk_size_of-ends : (o : Option Number) → chunk_size_of o ≢ err out_of_fuel
unfolding chunk_size_of
chunk_size_of-ends none h = cc
chunk_size_of-ends (some (int (pos zero))) h = cc
chunk_size_of-ends (some (int (pos (suc n)))) h = cc
chunk_size_of-ends (some (int (negsuc n))) h = cc
chunk_size_of-ends (some (not_integer n)) h = cc

latest_block_of-ends :
    (o : Option Text) (answer : Result Text Text) → latest_block_of o answer ≢ err out_of_fuel
latest_block_of-ends none (ok s) h = cc
latest_block_of-ends none (err message) h = cc
latest_block_of-ends (some s) answer h = cc

module _ (topic : Text) (block_number : Result Text Text)
    (get_logs : LogFilter → Result Text (List RawRootAcceptedRpcLog)) (runtime : Runtime)
    (input : FetchInput) where
  -- Where the chunk size is positive, the first and the latest block are hexadecimal, and the node
  -- answers every request with the logs of its blocks, the read succeeds: it gives the logs of every
  -- block from the first one to the latest, each block once and in order, and none where the first
  -- block is past the latest.
  pub fetch_root_accepted_logs-blocks :
      (logs_of : ℕ → List RawRootAcceptedRpcLog)
      (served : (first n : ℕ)
        → get_logs (filter_of topic runtime.pool first (first + n))
          ≡ ok (logs_of_blocks logs_of first (suc n)))
      (size : ℕ) (latest : Text)
      → chunk_size_of input.log_chunk_size ≡ ok size
      → is_block_quantity (given_or input.from_block runtime.pool_deployment_block) ≡ true
      → is_other_text input.to_block ≡ false
      → latest_block_of input.to_block block_number ≡ ok latest
      → is_big_int latest ≡ true
      → fetch_root_accepted_logs topic block_number get_logs runtime input
        ≡ ok (
            logs_of_blocks logs_of
              (big_int (given_or input.from_block runtime.pool_deployment_block))
              (suc (big_int latest)
                - big_int (given_or input.from_block runtime.pool_deployment_block)))
  unfolding fetch_root_accepted_logs
  fetch_root_accepted_logs-blocks logs_of served size latest s f t l b =
      let first = big_int (given_or input.from_block runtime.pool_deployment_block) in
      rw (s, f, t, l, b)
        (fetch_from-blocks topic block_number get_logs runtime.pool size
          (chunk_size_of-positive input.log_chunk_size size s) logs_of served (big_int latest)
          (suc (big_int latest) - first) first (omega arith))

  -- The loop ends: the code never runs out of the model's fuel, whatever the node answers.
  pub fetch_root_accepted_logs-ends :
      fetch_root_accepted_logs topic block_number get_logs runtime input ≢ err out_of_fuel
  unfolding fetch_root_accepted_logs
  fetch_root_accepted_logs-ends = bind-ends _ _ (chunk_size_of-ends input.log_chunk_size) (λ size s.
      let first = big_int (given_or input.from_block runtime.pool_deployment_block) in
      guard-ends _ from_block_not_a_quantity _ (λ e. cc)
        (guard-ends _ to_block_not_a_quantity _ (λ e. cc)
          (bind-ends _ _ (latest_block_of-ends input.to_block block_number) (λ latest l.
            guard-ends _ not_a_big_int _ (λ e. cc)
              (fetch_from-ends topic block_number get_logs runtime.pool size
                (chunk_size_of-positive input.log_chunk_size size s) (big_int latest)
                (suc (big_int latest) - first) first (omega arith))))))
