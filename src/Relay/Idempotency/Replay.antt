-- ===== src/Relay/Idempotency/Replay.antt =====
-- What `prepareRelayIdempotency` answers once a request is recorded.
use mathlib.Core.Path.{subst}
use nullark.Prelude.{
  ℕ, ◌<◌, ◌≡◌, ◌≢◌, refl, sym, ◌∙◌, inl, inr, true, Option, none, some, if◌then◌else◌, Bool-cases,
  Option-cases,
}
use nullark.Prelude.Text.{Text, text, text_eq, to_lower_case}
use nullark.Relay.Store.{KvStore}
use nullark.Relay.Idempotency.{
  RelayIdempotencyRecord, RelayIdempotencyInput, RelayIdempotencyPrepared, Stored, ready, pending,
  submitted, is_hex, as_submitted, build_relay_idempotency_prepared, decide, decide_by_nullifier,
  pending_record, submitted_record, read_relay_idempotency_record, record_relay_pending,
  record_relay_submitted, prepare_relay_idempotency, relay_idempotency_ttl_seconds,
}
use nullark.Relay.Idempotency.Kept.{
  IsStorable, SameWithdrawal, nullifier_key_eq, Kept, Later, write-nullifier, write-calldata,
  Kept-Later,
}

module _ (store : KvStore Stored) where
  open store use {State}

  by_nullifier-not_ready :
      (p q : RelayIdempotencyPrepared) (hash : Text) (r : RelayIdempotencyRecord)
      → decide_by_nullifier p hash (some r) ≢ ready q
  unfolding decide_by_nullifier
  by_nullifier-not_ready p q hash r =
      elim (Bool-cases (text_eq (to_lower_case r.calldata_hash) (to_lower_case hash))) [
        | inl own ↦ elim (Option-cases (as_submitted (some r))) [
          | inl waits ↦ rw (own, waits) (λ h. cc)
          | inr (tx_hash, sent) ↦ rw (own, sent) (λ h. cc)
        ]
        | inr other ↦ rw other (λ h. cc)
      ]

  decide-waiting :
      (p : RelayIdempotencyPrepared) (hash : Text) (n : Option RelayIdempotencyRecord)
      (c : RelayIdempotencyRecord)
      → as_submitted (some c) ≡ none
      → decide p hash n (some c)
        ≡ (if text_eq c.status (text "pending") then pending c else decide_by_nullifier p hash n)
  unfolding decide
  decide-waiting p hash n c e = rw (decide, e) refl

  decide-sent :
      (p : RelayIdempotencyPrepared) (hash : Text) (n : Option RelayIdempotencyRecord)
      (c : RelayIdempotencyRecord) (tx_hash : Text)
      → as_submitted (some c) ≡ some tx_hash
      → decide p hash n (some c) ≡ submitted c tx_hash
  unfolding decide
  decide-sent p hash n c tx_hash e = rw (decide, e) refl

  submitted_record-sent :
      (p : RelayIdempotencyPrepared) (tx_hash : Text) (time : ℕ)
      → is_hex tx_hash ≡ true
      → as_submitted (some (submitted_record p tx_hash time)) ≡ some tx_hash
  unfolding as_submitted submitted_record text_eq
  submitted_record-sent p tx_hash time h = rw h refl

  decide-not_ready :
      (p q : RelayIdempotencyPrepared) (hash : Text) (r : RelayIdempotencyRecord)
      (c : Option RelayIdempotencyRecord)
      → decide p hash (some r) c ≢ ready q
  unfolding decide
  decide-not_ready p q hash r none = by_nullifier-not_ready p q hash r
  decide-not_ready p q hash r (some c) = elim (Option-cases (as_submitted (some c))) [
    | inl e ↦ elim (Bool-cases (text_eq c.status (text "pending"))) [
      | inl waits ↦ λ h. cc (h, decide-waiting p hash (some r) c e, waits)
      | inr other ↦ λ h.
          by_nullifier-not_ready p q hash r
            (sym (decide-waiting p hash (some r) c e ∙ rw other refl) ∙ h)
    ]
    | inr (tx_hash, e) ↦ λ h. cc (h, decide-sent p hash (some r) c tx_hash e)
  ]

  module _ (keccak256 : Text → Text) (input : RelayIdempotencyInput) where
    abbrev prepared : RelayIdempotencyPrepared
    prepared = build_relay_idempotency_prepared input (keccak256 input.calldata)

    -- Once a request is recorded as pending, by a record that passes the check of what is read, no
    -- request for the same withdrawal is ready, with the same call data or with other, in any state that
    -- further such recordings and waits of less than an hour in all lead to.
    pub prepare_relay_idempotency-once :
        (other : RelayIdempotencyInput) (s t : State) (passed : ℕ) (q : RelayIdempotencyPrepared)
        → IsStorable
            (pending_record (build_relay_idempotency_prepared input (keccak256 input.calldata)))
        → SameWithdrawal input other
        → Later store
            (record_relay_pending store
              (build_relay_idempotency_prepared input (keccak256 input.calldata))
              s)
            passed
            t
        → passed < relay_idempotency_ttl_seconds
        → prepare_relay_idempotency store keccak256 other t ≢ ready q
    unfolding prepare_relay_idempotency record_relay_pending
    prepare_relay_idempotency-once other s t passed q h same l soon =
        let key =
          (build_relay_idempotency_prepared other (keccak256 other.calldata)).nullifier_key in
        let first =
          subst (Kept store 0 _)
            (nullifier_key_eq input other (keccak256 input.calldata) (keccak256 other.calldata)
              same)
            (write-nullifier store s prepared (pending_record prepared) h) in
        let (r, e) = (Kept-Later store key l soon first).there in
        rw e (
          decide-not_ready (build_relay_idempotency_prepared other (keccak256 other.calldata)) q
            (keccak256 other.calldata) r
            (read_relay_idempotency_record store t
              (build_relay_idempotency_prepared other (keccak256 other.calldata)).calldata_key))

    -- A request that was just recorded as pending, by a record that passes the check of what is read, is
    -- answered as pending, with that record.
    pub prepare_relay_idempotency-pending :
        (s : State)
        → IsStorable
            (pending_record (build_relay_idempotency_prepared input (keccak256 input.calldata)))
        → prepare_relay_idempotency store keccak256 input (
            record_relay_pending store
              (build_relay_idempotency_prepared input (keccak256 input.calldata))
              s)
          ≡ pending
              (pending_record (build_relay_idempotency_prepared input (keccak256 input.calldata)))
    unfolding prepare_relay_idempotency record_relay_pending decide as_submitted text_eq
        pending_record
    prepare_relay_idempotency-pending s h =
        rw (write-calldata store s prepared (pending_record prepared) h) refl

    -- A request that was just recorded as submitted, by a record that passes the check of what is read
    -- and under a hexadecimal hash, is answered as submitted, with the record and the hash.
    pub prepare_relay_idempotency-submitted :
        (s : State) (tx_hash : Text) (time : ℕ)
        → IsStorable (
            submitted_record
              (build_relay_idempotency_prepared input (keccak256 input.calldata))
              tx_hash
              time)
        → is_hex tx_hash ≡ true
        → prepare_relay_idempotency store keccak256 input (
            record_relay_submitted store
              (build_relay_idempotency_prepared input (keccak256 input.calldata))
              tx_hash
              time
              s)
          ≡ submitted
              (submitted_record
                (build_relay_idempotency_prepared input (keccak256 input.calldata))
                tx_hash
                time)
              tx_hash
    unfolding prepare_relay_idempotency record_relay_submitted
    prepare_relay_idempotency-submitted s tx_hash time h hex =
        rw (write-calldata store s prepared (submitted_record prepared tx_hash time) h) (
          decide-sent prepared (keccak256 input.calldata) _ (submitted_record prepared tx_hash time)
            tx_hash (submitted_record-sent prepared tx_hash time hex))
