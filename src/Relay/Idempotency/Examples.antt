-- ===== src/Relay/Idempotency/Examples.antt =====
-- Runs of the idempotency, on a store in memory and with a hash that keeps its text.
use nullark.Prelude.{◌≡◌, ◌≢◌, refl, true, List, [], arith}
use nullark.Prelude.Text.{Text, text, to_lower_case}
use nullark.Relay.Store.{KvStore, Entry, memory_store, lookup, time_left, pass}
use nullark.Relay.Idempotency.{
  RelayIdempotencyInput, RelayIdempotencyPrepared, Stored, ready, pending, submitted, conflict,
  is_hex, build_relay_idempotency_prepared, pending_record, submitted_record, record_relay_pending,
  record_relay_submitted, prepare_relay_idempotency, is_relay_idempotency_record,
}
use nullark.Relay.Idempotency.Kept.{IsStorable, SameWithdrawal, now, later_waiting, later_submitted}
use nullark.Relay.Idempotency.Replay.{
  prepare_relay_idempotency-once, prepare_relay_idempotency-pending,
  prepare_relay_idempotency-submitted,
}

abbrev memory : KvStore Stored
memory = memory_store Stored

abbrev plain_hash : Text → Text
plain_hash calldata = calldata

abbrev request : RelayIdempotencyInput
request = record {
  chain_id = 1;
  pool = text "0xAb";
  nullifier = text "0x1F";
  calldata = text "0xcafe";
  now_epoch_seconds = 100;
}

-- The same nullifier in small letters, with other call data.
abbrev replay : RelayIdempotencyInput
replay = record request { nullifier = text "0x1f"; calldata = text "0xbeef" }

abbrev prepared : RelayIdempotencyPrepared
prepared = build_relay_idempotency_prepared request (text "0xcafe")

first_is_ready : prepare_relay_idempotency memory plain_hash request [] ≡ ready prepared
unfolding prepare_relay_idempotency lookup
first_is_ready = refl

replay_conflicts :
    prepare_relay_idempotency memory plain_hash replay (record_relay_pending memory prepared [])
    ≡ conflict
unfolding prepare_relay_idempotency record_relay_pending lookup
replay_conflicts = refl

pending-IsStorable : IsStorable (pending_record prepared)
unfolding build_relay_idempotency_prepared pending_record is_relay_idempotency_record
pending-IsStorable = refl

submitted-IsStorable : IsStorable (submitted_record prepared (text "0x77") 160)
unfolding build_relay_idempotency_prepared submitted_record is_relay_idempotency_record
submitted-IsStorable = refl

hash_is_hex : is_hex (text "0x77") ≡ true
unfolding is_hex
hash_is_hex = refl

replay-SameWithdrawal : SameWithdrawal request replay
unfolding to_lower_case
replay-SameWithdrawal = record { same_chain = refl; same_pool = refl; same_nullifier = refl }

-- The same withdrawal, half an hour after it was submitted and ten seconds after it was recorded.
abbrev half_an_hour_later : List (Entry Stored)
half_an_hour_later = memory.wait 1800 (
    record_relay_submitted memory prepared (text "0x77") 160
      (memory.wait 10 (record_relay_pending memory prepared [])))

replay_not_ready :
    prepare_relay_idempotency memory plain_hash replay half_an_hour_later
    ≢ ready (build_relay_idempotency_prepared replay (text "0xbeef"))
replay_not_ready =
    prepare_relay_idempotency-once memory plain_hash request replay [] half_an_hour_later 1810
      (build_relay_idempotency_prepared replay (text "0xbeef")) pending-IsStorable
      replay-SameWithdrawal
      (later_waiting 1800
        (later_submitted prepared (text "0x77") 160 (later_waiting 10 now) submitted-IsStorable))
      (omega arith)

-- After the hour the record is gone.
ready_after_the_hour :
    prepare_relay_idempotency memory plain_hash request
      (memory.wait 3600 (record_relay_pending memory prepared []))
    ≡ ready prepared
unfolding prepare_relay_idempotency record_relay_pending lookup time_left pass
ready_after_the_hour = refl

request_pending :
    prepare_relay_idempotency memory plain_hash request (record_relay_pending memory prepared [])
    ≡ pending (pending_record prepared)
request_pending = prepare_relay_idempotency-pending memory plain_hash request [] pending-IsStorable

request_submitted :
    prepare_relay_idempotency memory plain_hash request
      (record_relay_submitted memory prepared (text "0x77") 160 [])
    ≡ submitted (submitted_record prepared (text "0x77") 160) (text "0x77")
request_submitted =
    prepare_relay_idempotency-submitted memory plain_hash request [] (text "0x77") 160
      submitted-IsStorable hash_is_hex
