-- ===== src/Relay/Idempotency.antt =====
-- services/relay/src/idempotency.ts: one withdrawal, named by its nullifier, is relayed once. A stored
-- value is what `JSON.parse` makes of it: a record, or a text that is none.
pub mod Kept
pub mod Replay
mod Examples
use nullark.Prelude.{
  ℕ, zero, suc, ◌+◌, ◌*◌, Bool, true, false, not, ◌||◌, ◌&&◌, Option, none, some, List, [], ◌∷◌,
  ◌++◌, ltb, leb, ◌==◌, if◌then◌else◌,
}
use nullark.Prelude.Number.{Number, is_safe_integer}
use nullark.Prelude.Text.{Text, text, text_eq, to_lower_case, to_string, all_hex}
use nullark.Prelude.Int.{ℤ, pos}
use nullark.Prelude.Number.{int}
use nullark.Relay.Store.{KvStore}

-- `status` of a parsed value may be any text, and its numbers any number.
pub record RelayIdempotencyRecord : Type 0 where
  pub status : Text
  pub chain_id : Number
  pub pool : Text
  pub nullifier : Text
  pub calldata_hash : Text
  pub updated_at_epoch_seconds : Number
  pub tx_hash : Option Text

pub data Stored : Type 0 where
  malformed : Stored
  json : RelayIdempotencyRecord → Stored

pub record RelayIdempotencyInput : Type 0 where
  pub chain_id : ℕ
  pub pool : Text
  pub nullifier : Text
  pub calldata : Text
  pub now_epoch_seconds : ℕ

pub record RelayIdempotencyPrepared : Type 0 where
  pub chain_id : ℕ
  pub pool : Text
  pub nullifier : Text
  pub calldata_hash : Text
  pub nullifier_key : Text
  pub calldata_key : Text
  pub now_epoch_seconds : ℕ

-- A submitted record is one with a hash, which stands beside it.
pub data RelayIdempotencyDecision : Type 0 where
  ready : RelayIdempotencyPrepared → RelayIdempotencyDecision
  pending : RelayIdempotencyRecord → RelayIdempotencyDecision
  submitted : RelayIdempotencyRecord → Text → RelayIdempotencyDecision
  conflict : RelayIdempotencyDecision

abbrev pub relay_idempotency_ttl_seconds : ℕ
relay_idempotency_ttl_seconds = 60 * 60

-- `/^0x[0-9a-fA-F]+$/`
unfoldable pub is_hex : Text → Bool
unfolding all_hex
is_hex (zero_unit ∷ x ∷ c ∷ s) = zero_unit == b'0' && (x == b'x' && all_hex (c ∷ s))
is_hex _ = false

abbrev pub optional_hex : Option Text → Bool
optional_hex none = true
optional_hex (some hash) = is_hex hash

unfoldable pub is_relay_idempotency_record : RelayIdempotencyRecord → Bool
unfolding is_hex is_safe_integer text_eq
is_relay_idempotency_record value =
    (text_eq value.status (text "pending") || text_eq value.status (text "submitted"))
    && (is_safe_integer value.chain_id
        && (is_hex value.pool
            && (is_hex value.nullifier
                && (is_hex value.calldata_hash
                    && (is_safe_integer value.updated_at_epoch_seconds
                        && optional_hex value.tx_hash)))))

abbrev pub checked_record : Option Stored → Option RelayIdempotencyRecord
checked_record none = none
checked_record (some malformed) = none
checked_record (some (json record_)) =
    if is_relay_idempotency_record record_ then some record_ else none

abbrev pub hash_if_hex : Option Text → Option Text
hash_if_hex none = none
hash_if_hex (some hash) = if is_hex hash then some hash else none

-- `asSubmitted`, by the hash that it makes certain of.
unfoldable pub as_submitted : Option RelayIdempotencyRecord → Option Text
unfolding text_eq is_hex
as_submitted none = none
as_submitted (some r) = if text_eq r.status (text "submitted") then hash_if_hex r.tx_hash else none

unfoldable pub build_relay_idempotency_prepared :
    RelayIdempotencyInput → Text → RelayIdempotencyPrepared
unfolding to_lower_case to_string
build_relay_idempotency_prepared input calldata_hash =
    let prefix =
      text "relay:" ++ (to_string 10 input.chain_id ++ (text ":" ++ to_lower_case input.pool)) in
    record {
      chain_id = input.chain_id;
      pool = to_lower_case input.pool;
      nullifier = to_lower_case input.nullifier;
      calldata_hash = to_lower_case calldata_hash;
      nullifier_key = prefix ++ (text ":nullifier:" ++ to_lower_case input.nullifier);
      calldata_key = prefix ++ (text ":calldata:" ++ to_lower_case calldata_hash);
      now_epoch_seconds = input.now_epoch_seconds;
    }

-- `prepareRelayIdempotency` behind its reads, in three steps: the record under the nullifier, ...
unfoldable pub decide_by_nullifier :
    RelayIdempotencyPrepared → Text → Option RelayIdempotencyRecord → RelayIdempotencyDecision
unfolding as_submitted to_lower_case
decide_by_nullifier prepared calldata_hash none = ready prepared
decide_by_nullifier prepared calldata_hash (some r) =
    if text_eq (to_lower_case r.calldata_hash) (to_lower_case calldata_hash)
    then (elim (as_submitted (some r)) [ some hash ↦ submitted r hash | none ↦ pending r ])
    else conflict

-- ... and before it the record under the call data, submitted or pending.
unfoldable pub decide :
    RelayIdempotencyPrepared
    → Text
    → Option RelayIdempotencyRecord
    → Option RelayIdempotencyRecord
    → RelayIdempotencyDecision
unfolding as_submitted decide_by_nullifier
decide prepared calldata_hash nullifier_record none =
    decide_by_nullifier prepared calldata_hash nullifier_record
decide prepared calldata_hash nullifier_record (some r) = elim (as_submitted (some r)) [
  | some hash ↦ submitted r hash
  | none ↦
      if text_eq r.status (text "pending")
      then pending r
      else decide_by_nullifier prepared calldata_hash nullifier_record
]

unfoldable pub pending_record : RelayIdempotencyPrepared → RelayIdempotencyRecord
pending_record prepared = record {
  status = text "pending";
  chain_id = int (pos prepared.chain_id);
  pool = prepared.pool;
  nullifier = prepared.nullifier;
  calldata_hash = prepared.calldata_hash;
  updated_at_epoch_seconds = int (pos prepared.now_epoch_seconds);
  tx_hash = none;
}

-- `now` is the clock's time, in whole seconds.
unfoldable pub submitted_record : RelayIdempotencyPrepared → Text → ℕ → RelayIdempotencyRecord
submitted_record prepared tx_hash now = record {
  status = text "submitted";
  chain_id = int (pos prepared.chain_id);
  pool = prepared.pool;
  nullifier = prepared.nullifier;
  calldata_hash = prepared.calldata_hash;
  updated_at_epoch_seconds = int (pos now);
  tx_hash = some tx_hash;
}

module _ (store : KvStore Stored) where
  open store use {State, get, put}

  unfoldable pub read_relay_idempotency_record : State → Text → Option RelayIdempotencyRecord
  unfolding is_relay_idempotency_record
  read_relay_idempotency_record s key = checked_record (get s key)

  unfoldable pub write_relay_idempotency_record :
      RelayIdempotencyPrepared → RelayIdempotencyRecord → State → State
  write_relay_idempotency_record prepared r s =
      put prepared.calldata_key (json r) relay_idempotency_ttl_seconds
        (put prepared.nullifier_key (json r) relay_idempotency_ttl_seconds s)

  -- The code returns the written record as well: `pending_record`, and `submitted_record` below.
  unfoldable pub record_relay_pending : RelayIdempotencyPrepared → State → State
  unfolding pending_record write_relay_idempotency_record
  record_relay_pending prepared s =
      write_relay_idempotency_record prepared (pending_record prepared) s

  unfoldable pub record_relay_submitted : RelayIdempotencyPrepared → Text → ℕ → State → State
  unfolding submitted_record write_relay_idempotency_record
  record_relay_submitted prepared tx_hash now s =
      write_relay_idempotency_record prepared (submitted_record prepared tx_hash now) s

  -- `keccak256` is viem's.
  module _ (keccak256 : Text → Text) where
    unfoldable pub prepare_relay_idempotency :
        RelayIdempotencyInput → State → RelayIdempotencyDecision
    unfolding build_relay_idempotency_prepared read_relay_idempotency_record decide
    prepare_relay_idempotency input s =
        let prepared = build_relay_idempotency_prepared input (keccak256 input.calldata) in
        decide prepared (keccak256 input.calldata)
          (read_relay_idempotency_record s prepared.nullifier_key)
          (read_relay_idempotency_record s prepared.calldata_key)
