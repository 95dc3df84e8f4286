-- ===== src/Sdk/RootLogs.antt =====
-- packages/sdk/src/merkle/rootLogs.ts: raw RootAccepted logs, their order and their decoding. The ABI
-- decoder is a parameter.
pub mod Fetch
pub mod Pages
pub mod Hints
pub mod Finality
pub mod Recover
pub mod Recovered
mod Examples
use nullark.Prelude.{
  ℕ, zero, suc, ◌%◌, Bool, true, false, not, ◌&&◌, ◌||◌, List, [], ◌∷◌, ◌++◌, map, Option, none,
  some, ltb, leb, ◌==◌, if◌then◌else◌, Result, ok, err, ◌>>=◌, ◌>>◌, throw_if, length, any_of,
}
use nullark.Prelude.Text.{Text, text, text_eq, to_lower_case, to_string, all_hex, digit_value}
use nullark.Prelude.Map.{get, put, text_key}
use nullark.Prelude.Sort.{sort_by}
use nullark.Sdk.Merkle.Chain.{RootAcceptedLogRecord, is_hex_bytes32, big_int}

pub record RawRootAcceptedRpcLog : Type 0 where
  pub address : Text
  pub topics : List Text
  pub data_ : Text
  pub block_number : Option Text
  pub transaction_hash : Option Text
  pub log_index : Option Text

-- What is thrown, in the order of the file. `rpc_failed` and `decoding_failed` are the errors of the
-- node and of the ABI decoder, `not_an_integer` and `not_a_big_int` those of `BigInt`; `out_of_fuel` is
-- the model's.
pub data RootLogsError : Type 0 where
  not_an_integer chunk_size_not_positive from_block_not_a_quantity : RootLogsError
  to_block_not_a_quantity not_a_big_int hint_too_new invalid_log_shape : RootLogsError
  invalid_log_topics position_missing ambiguous_transaction ambiguous_position : RootLogsError
  not_bytes32 recovery_to_block_not_a_quantity confirmations_not_positive : RootLogsError
  both_finality_policies confirmations_exceed_latest finality_policy_required : RootLogsError
  out_of_fuel : RootLogsError
  rpc_failed decoding_failed : Text → RootLogsError

-- `isBlockQuantity`: `/^0x(?:0|[1-9a-fA-F][0-9a-fA-F]*)$/`
abbrev pub is_quantity_digits : Text → Bool
is_quantity_digits [] = false
is_quantity_digits (c ∷ []) = ltb (digit_value c) 16
is_quantity_digits (c ∷ d ∷ digits) = not (c == b'0') && all_hex (c ∷ d ∷ digits)

unfoldable pub is_block_quantity : Text → Bool
unfolding all_hex digit_value
is_block_quantity (zero_unit ∷ x ∷ digits) =
    zero_unit == b'0' && (x == b'x' && is_quantity_digits digits)
is_block_quantity _ = false

-- `toBlockQuantity`
unfoldable pub to_block_quantity : ℕ → Text
unfolding to_string
to_block_quantity value = text "0x" ++ to_string 16 value

-- `isHexString`: `/^0x(?:[0-9a-fA-F]{2})*$/`, and `isEvmAddress`: `/^0x[0-9a-fA-F]{40}$/`
unfoldable pub is_hex_string : Text → Bool
unfolding all_hex
is_hex_string (zero_unit ∷ x ∷ digits) =
    zero_unit == b'0' && (x == b'x' && (length digits % 2 == 0 && all_hex digits))
is_hex_string _ = false

unfoldable pub is_evm_address : Text → Bool
unfolding all_hex
is_evm_address (zero_unit ∷ x ∷ digits) =
    zero_unit == b'0' && (x == b'x' && (length digits == 40 && all_hex digits))
is_evm_address _ = false

unfoldable pub assert_bytes32 : Text → Result RootLogsError Text
unfolding is_hex_bytes32
assert_bytes32 value = if is_hex_bytes32 value then ok value else err not_bytes32

-- `a ?? b`
abbrev pub given_or : Option Text → Text → Text
given_or none d = d
given_or (some s) d = s

-- `JSON.stringify` of two canonical logs is the same exactly if their fields are.
abbrev pub same_list : List Text → List Text → Bool
same_list [] [] = true
same_list (s ∷ ss) (t ∷ ts) = text_eq (to_lower_case s) (to_lower_case t) && same_list ss ts
same_list _ _ = false

abbrev pub same_option : Option Text → Option Text → Bool
same_option none none = true
same_option (some s) (some t) = text_eq (to_lower_case s) (to_lower_case t)
same_option _ _ = false

unfoldable pub same_root_accepted_log : RawRootAcceptedRpcLog → RawRootAcceptedRpcLog → Bool
unfolding text_eq to_lower_case
same_root_accepted_log left right =
    text_eq (to_lower_case left.address) (to_lower_case right.address)
    && (same_list left.topics right.topics
        && (text_eq (to_lower_case left.data_) (to_lower_case right.data_)
            && (same_option left.block_number right.block_number
                && (same_option left.transaction_hash right.transaction_hash
                    && same_option left.log_index right.log_index))))

-- The variables of the loop of `normalizeRootAcceptedLogs`.
pub record Normalizer : Type 0 where
  pub by_transaction_log_index : List (Text × RawRootAcceptedRpcLog)
  pub by_block_log_index : List (Text × RawRootAcceptedRpcLog)
  pub normalized : List RawRootAcceptedRpcLog

-- Some log is kept under the key, and it is another one.
abbrev pub is_other : Option RawRootAcceptedRpcLog → RawRootAcceptedRpcLog → Bool
is_other none log = false
is_other (some previous) log = not (same_root_accepted_log previous log)

-- A log at its position.
unfoldable pub add_at : Text → RawRootAcceptedRpcLog → Normalizer → Result RootLogsError Normalizer
unfolding get put same_root_accepted_log
add_at block_key log s = do
  throw_if (is_other (get s.by_block_log_index block_key) log) ambiguous_position
  ok (record s {
    by_block_log_index = put s.by_block_log_index block_key log;
    normalized = s.normalized ++ log ∷ [];
  })

-- A log of a transaction: one that was read before is left out.
abbrev pub add_of_transaction :
    Option RawRootAcceptedRpcLog
    → Text
    → Text
    → RawRootAcceptedRpcLog
    → Normalizer
    → Result RootLogsError Normalizer
add_of_transaction (some previous) transaction_key block_key log s = do
  throw_if (not (same_root_accepted_log previous log)) ambiguous_transaction
  ok s
add_of_transaction none transaction_key block_key log s =
    add_at block_key log
      (record s { by_transaction_log_index = put s.by_transaction_log_index transaction_key log })

abbrev pub is_hash : Option Text → Bool
is_hash none = false
is_hash (some hash) = is_hex_bytes32 hash

unfoldable pub normalize_log : RawRootAcceptedRpcLog → Normalizer → Result RootLogsError Normalizer
unfolding is_block_quantity is_hex_bytes32 to_lower_case add_at same_root_accepted_log get put
normalize_log log s = do
  let block_number = given_or log.block_number []
  let log_index = given_or log.log_index []
  throw_if (not (is_block_quantity block_number) || not (is_block_quantity log_index))
      position_missing
  let transaction_key =
      to_lower_case (given_or log.transaction_hash []) ++ b':' ∷ to_lower_case log_index
  let block_key = to_lower_case block_number ++ b':' ∷ to_lower_case log_index
  if is_hash log.transaction_hash
      then add_of_transaction (get s.by_transaction_log_index transaction_key) transaction_key
          block_key log s
      else add_at block_key log s

unfoldable pub normalize_logs :
    List RawRootAcceptedRpcLog → Normalizer → Result RootLogsError Normalizer
unfolding normalize_log
normalize_logs [] s = ok s
normalize_logs (log ∷ logs) s = do next ← normalize_log log s; normalize_logs logs next

-- The comparator of the sort, of logs whose position was checked.
unfoldable pub before : RawRootAcceptedRpcLog → RawRootAcceptedRpcLog → Bool
unfolding big_int
before left right =
    let left_block = big_int (given_or left.block_number (text "0x0")) in
    let right_block = big_int (given_or right.block_number (text "0x0")) in
    if left_block == right_block
    then ltb (big_int (given_or left.log_index (text "0x0")))
        (big_int (given_or right.log_index (text "0x0")))
    else ltb left_block right_block

unfoldable pub normalize_root_accepted_logs :
    List RawRootAcceptedRpcLog → Result RootLogsError (List RawRootAcceptedRpcLog)
unfolding normalize_logs sort_by before
normalize_root_accepted_logs logs = do
  s ←
      normalize_logs logs
        (record { by_transaction_log_index = []; by_block_log_index = []; normalized = [] })
  ok (sort_by before s.normalized)

-- What `decodeEventLog` returns for the event of the ABI.
pub record DecodedEvent : Type 0 where
  pub event_name : Text
  pub args : RootAcceptedLogRecord

module _ (decode_event_log : List Text → Text → Result Text DecodedEvent) where
  abbrev pub decode_event : Result Text DecodedEvent → Result RootLogsError DecodedEvent
  decode_event (ok event) = ok event
  decode_event (err message) = err (decoding_failed message)

  unfoldable pub decode_root_accepted_log :
      RawRootAcceptedRpcLog → Result RootLogsError (Option RootAcceptedLogRecord)
  unfolding is_evm_address is_hex_string any_of assert_bytes32 text_eq
  decode_root_accepted_log log = do
    throw_if (not (is_evm_address log.address) || not (is_hex_string log.data_)) invalid_log_shape
    throw_if (any_of (λ topic. not (is_hex_string topic)) log.topics) invalid_log_topics
    decoded ← decode_event (decode_event_log log.topics log.data_)
    if text_eq decoded.event_name (text "RootAccepted")
        then (do
          root ← assert_bytes32 decoded.args.root
          previous_root ← assert_bytes32 decoded.args.previous_root
          inserted_commitment ← assert_bytes32 decoded.args.inserted_commitment
          ok (
              some (record {
                root = root;
                previous_root = previous_root;
                inserted_commitment = inserted_commitment;
              })))
        else ok none

  abbrev pub decoded_list : Option RootAcceptedLogRecord → List RootAcceptedLogRecord
  decoded_list none = []
  decoded_list (some log) = log ∷ []

  unfoldable pub decode_logs :
      List RawRootAcceptedRpcLog → Result RootLogsError (List RootAcceptedLogRecord)
  unfolding decode_root_accepted_log
  decode_logs [] = ok []
  decode_logs (log ∷ logs) = do
    decoded ← decode_root_accepted_log log
    rest ← decode_logs logs
    ok (decoded_list decoded ++ rest)

  unfoldable pub decode_root_accepted_logs :
      List RawRootAcceptedRpcLog → Result RootLogsError (List RootAcceptedLogRecord)
  unfolding normalize_root_accepted_logs decode_logs
  decode_root_accepted_logs logs = do
    normalized ← normalize_root_accepted_logs logs
    decode_logs normalized
