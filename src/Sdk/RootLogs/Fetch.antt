-- ===== src/Sdk/RootLogs/Fetch.antt =====
-- `fetchRootAcceptedLogs` of packages/sdk/src/merkle/rootLogs.ts: the logs are read from the node in
-- ranges of blocks. The node's answers are parameters.
use nullark.Prelude.{
  ℕ, zero, suc, ◌+◌, ◌-◌, Bool, false, not, List, [], ◌∷◌, ◌++◌, Option, none, some, ltb,
  if◌then◌else◌, Result, ok, err, ◌>>=◌, ◌>>◌, throw_if,
}
use nullark.Prelude.Int.{ℤ, pos, negsuc}
use nullark.Prelude.Number.{Number, int, not_integer}
use nullark.Prelude.Text.{Text, all_hex}
use nullark.Sdk.Merkle.Chain.{big_int}
use nullark.Sdk.RootLogs.{
  RawRootAcceptedRpcLog, RootLogsError, not_an_integer, chunk_size_not_positive,
  from_block_not_a_quantity, to_block_not_a_quantity, not_a_big_int, out_of_fuel, rpc_failed,
  is_block_quantity, to_block_quantity, given_or,
}

-- The fields of NullarkCurrentRuntime that are read here.
pub record Runtime : Type 0 where
  pub is_mainnet : Bool
  pub pool : Text
  pub pool_deployment_block : Text

pub record FetchInput : Type 0 where
  pub from_block : Option Text
  pub to_block : Option Text
  pub log_chunk_size : Option Number

-- The parameters of `eth_getLogs`.
pub record LogFilter : Type 0 where
  pub address : Text
  pub from_block : Text
  pub to_block : Text
  pub topics : List Text

-- `BigInt(n)`, of a number and of a `HexString`, which begins with `0x`.
abbrev pub big_int_of_number : Number → Result RootLogsError ℤ
big_int_of_number (int n) = ok n
big_int_of_number (not_integer n) = err not_an_integer

abbrev pub is_big_int : Text → Bool
is_big_int (zero_unit ∷ x ∷ digit ∷ digits) = all_hex (digit ∷ digits)
is_big_int _ = false

-- A chunk size, which has to be positive.
unfoldable pub chunk_size_of : Option Number → Result RootLogsError ℕ
chunk_size_of none = ok 50000
chunk_size_of (some n) = do size ← big_int_of_number n; positive size
  where
    positive : ℤ → Result RootLogsError ℕ
    positive (pos zero) = err chunk_size_not_positive
    positive (pos (suc n)) = ok (suc n)
    positive (negsuc n) = err chunk_size_not_positive

abbrev pub is_other_text : Option Text → Bool
is_other_text none = false
is_other_text (some s) = not (is_block_quantity s)

-- What a request returns, or the message that it throws.
abbrev pub answered {ℓ} : {A : Type ℓ} → Result Text A → Result RootLogsError A
answered (ok a) = ok a
answered (err message) = err (rpc_failed message)

abbrev pub latest_block_of : Option Text → Result Text Text → Result RootLogsError Text
latest_block_of none block_number = answered block_number
latest_block_of (some s) block_number = ok s

abbrev pub filter_of : Text → Text → ℕ → ℕ → LogFilter
filter_of root_accepted_topic pool from_ to_ = record {
  address = pool;
  from_block = to_block_quantity from_;
  to_block = to_block_quantity to_;
  topics = root_accepted_topic ∷ [];
}

-- The end of the range that begins at the cursor.
abbrev pub chunk_end : ℕ → ℕ → ℕ → ℕ
chunk_end chunk_size latest_block cursor =
    if ltb latest_block (cursor + chunk_size) then latest_block else cursor + chunk_size

module _ (root_accepted_topic : Text) (block_number : Result Text Text)
    (get_logs : LogFilter → Result Text (List RawRootAcceptedRpcLog)) where
  -- The loop, with fuel.
  unfoldable pub fetch_from :
      Text → ℕ → ℕ → ℕ → ℕ → Result RootLogsError (List RawRootAcceptedRpcLog)
  unfolding to_block_quantity
  fetch_from pool chunk_size latest_block zero cursor =
      if ltb latest_block cursor then ok [] else err out_of_fuel
  fetch_from pool chunk_size latest_block (suc fuel) cursor =
      let end_ = chunk_end chunk_size latest_block cursor in
      let rest = fetch_from pool chunk_size latest_block fuel (end_ + 1) in
      if ltb latest_block cursor then ok [] else (do
        result ← answered (get_logs (filter_of root_accepted_topic pool cursor end_))
        logs ← rest
        ok (result ++ logs))

  unfoldable pub fetch_root_accepted_logs :
      Runtime → FetchInput → Result RootLogsError (List RawRootAcceptedRpcLog)
  unfolding chunk_size_of is_block_quantity all_hex big_int fetch_from
  fetch_root_accepted_logs runtime input = do
    chunk_size ← chunk_size_of input.log_chunk_size
    let from_block = given_or input.from_block runtime.pool_deployment_block
    throw_if (not (is_block_quantity from_block)) from_block_not_a_quantity
    throw_if (is_other_text input.to_block) to_block_not_a_quantity
    latest_block ← latest_block_of input.to_block block_number
    throw_if (not (is_big_int latest_block)) not_a_big_int
    let latest = big_int latest_block
    let from_ = big_int from_block
    fetch_from runtime.pool chunk_size latest (suc latest - from_) from_
