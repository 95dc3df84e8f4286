-- ===== src/Relay/Idempotency/Kept.antt =====
-- How long a record of the idempotency is read: an hour from its writing, whatever else is recorded.
use nullark.Prelude.{
  ℕ, ◌+◌, ◌≤◌, ◌<◌, ◌≡◌, refl, ◌∙◌, inl, inr, true, ltb, lt→ltb, arith, some, if◌then◌else◌,
  Bool-cases,
}
use nullark.Prelude.Text.{Text, text_eq, text_eq_refl, to_lower_case}
use nullark.Relay.Store.{KvStore}
use nullark.Relay.Idempotency.{
  RelayIdempotencyRecord, RelayIdempotencyInput, RelayIdempotencyPrepared, Stored, json,
  is_relay_idempotency_record, build_relay_idempotency_prepared, pending_record, submitted_record,
  read_relay_idempotency_record, write_relay_idempotency_record, record_relay_pending,
  record_relay_submitted, relay_idempotency_ttl_seconds,
}

-- A record that passes the check of what is read.
abbrev pub IsStorable : RelayIdempotencyRecord → Type 0
IsStorable r = is_relay_idempotency_record r ≡ true

-- The requests name the same withdrawal: the chain, and, in any case of letters, the pool and the
-- nullifier.
pub record SameWithdrawal (a b : RelayIdempotencyInput) : Type 0 where
  pub same_chain : a.chain_id ≡ b.chain_id
  pub same_pool : to_lower_case a.pool ≡ to_lower_case b.pool
  pub same_nullifier : to_lower_case a.nullifier ≡ to_lower_case b.nullifier

pub nullifier_key_eq :
    (a b : RelayIdempotencyInput) (hash_a hash_b : Text)
    → SameWithdrawal a b
    → (build_relay_idempotency_prepared a hash_a).nullifier_key
      ≡ (build_relay_idempotency_prepared b hash_b).nullifier_key
unfolding build_relay_idempotency_prepared
nullifier_key_eq a b hash_a hash_b h = rw (h.same_chain, h.same_pool, h.same_nullifier) refl

module _ (store : KvStore Stored) where
  open store use {State, get, put, wait, left, get-put, left-put, get-wait, left-wait}

  -- A key under which a record is read.
  abbrev pub Recorded : State → Text → Type 0
  Recorded s key =
      (r : RelayIdempotencyRecord) × (read_relay_idempotency_record store s key ≡ some r)

  pub read-put :
      (s : State) (key : Text) (r : RelayIdempotencyRecord) (ttl : ℕ) (other : Text)
      → IsStorable r
      → read_relay_idempotency_record store (put key (json r) ttl s) other
        ≡ (if text_eq key other then some r else read_relay_idempotency_record store s other)
  unfolding read_relay_idempotency_record
  read-put s key r ttl other h = elim (Bool-cases (text_eq key other)) [
    | inl own ↦ rw (get-put s key (json r) ttl other, own, h)
    | inr away ↦ rw (get-put s key (json r) ttl other, away)
  ]

  -- A record that is read under a key, and whose time to live is over in an hour but the seconds that
  -- passed, or later.
  pub record Kept (passed : ℕ) (s : State) (key : Text) : Type 0 where
    pub there : Recorded s key
    pub lives : relay_idempotency_ttl_seconds ≤ passed + left s key

  Kept-put :
      (passed : ℕ) (s : State) (key : Text) (r : RelayIdempotencyRecord) (other : Text)
      → IsStorable r
      → Kept passed s other
      → Kept passed (put key (json r) relay_idempotency_ttl_seconds s) other
  Kept-put passed s key r other h k =
      let time = left-put s key (json r) relay_idempotency_ttl_seconds other in
      let read = read-put s key r relay_idempotency_ttl_seconds other h in
      elim (Bool-cases (text_eq key other)) [
        | inl own ↦ record {
          there = (r, read ∙ rw own refl);
          lives = omega (arith, rw own at time);
        }
        | inr away ↦ record {
          there = (k.there.0, read ∙ rw away k.there.1);
          lives = omega (arith, rw away at time, k.lives);
        }
      ]

  put-Kept :
      (s : State) (key : Text) (r : RelayIdempotencyRecord)
      → IsStorable r
      → Kept 0 (put key (json r) relay_idempotency_ttl_seconds s) key
  put-Kept s key r h =
      let own = text_eq_refl key in
      let time = left-put s key (json r) relay_idempotency_ttl_seconds key in
      record {
        there = (r, read-put s key r relay_idempotency_ttl_seconds key h ∙ rw own refl);
        lives = omega (arith, rw own at time);
      }

  -- An entry outlives a wait that ends within its hour.
  Kept-wait :
      (passed seconds : ℕ) (s : State) (key : Text)
      → passed + seconds < relay_idempotency_ttl_seconds
      → Kept passed s key
      → Kept (passed + seconds) (wait seconds s) key
  unfolding read_relay_idempotency_record
  Kept-wait passed seconds s key soon k =
      let still : ltb seconds (left s key) ≡ true = lt→ltb _ _ (omega (arith, soon, k.lives)) in
      record {
        there = (k.there.0, rw (get-wait seconds s key, still) k.there.1);
        lives = omega (arith, left-wait seconds s key, k.lives);
      }

  Kept-write :
      (passed : ℕ) (s : State) (p : RelayIdempotencyPrepared) (r : RelayIdempotencyRecord)
      (other : Text)
      → IsStorable r
      → Kept passed s other
      → Kept passed (write_relay_idempotency_record store p r s) other
  unfolding write_relay_idempotency_record
  Kept-write passed s p r other h k =
      Kept-put passed _ p.calldata_key r other h (Kept-put passed s p.nullifier_key r other h k)

  pub write-nullifier :
      (s : State) (p : RelayIdempotencyPrepared) (r : RelayIdempotencyRecord)
      → IsStorable r
      → Kept 0 (write_relay_idempotency_record store p r s) p.nullifier_key
  unfolding write_relay_idempotency_record
  write-nullifier s p r h =
      Kept-put 0 _ p.calldata_key r p.nullifier_key h (put-Kept s p.nullifier_key r h)

  pub write-calldata :
      (s : State) (p : RelayIdempotencyPrepared) (r : RelayIdempotencyRecord)
      → IsStorable r
      → read_relay_idempotency_record store
          (write_relay_idempotency_record store p r s)
          p.calldata_key
        ≡ some r
  unfolding write_relay_idempotency_record
  write-calldata s p r h =
      let own = text_eq_refl p.calldata_key in
      read-put _ p.calldata_key r relay_idempotency_ttl_seconds p.calldata_key h ∙ rw own refl

  -- A state, the seconds that pass, and a state that further recordings and waits lead to.
  pub data Later (s : State) : ℕ → State → Type 0 where
    now : Later s 0 s
    later_waiting :
        {passed : ℕ} {t : State} (seconds : ℕ)
        → Later s passed t
        → Later s (passed + seconds) (wait seconds t)
    later_pending :
        {passed : ℕ} {t : State} (p : RelayIdempotencyPrepared)
        → Later s passed t
        → IsStorable (pending_record p)
        → Later s passed (record_relay_pending store p t)
    later_submitted :
        {passed : ℕ} {t : State} (p : RelayIdempotencyPrepared) (tx_hash : Text) (time : ℕ)
        → Later s passed t
        → IsStorable (submitted_record p tx_hash time)
        → Later s passed (record_relay_submitted store p tx_hash time t)

  pub Kept-Later :
      {s : State} {passed : ℕ} {t : State} (key : Text)
      → Later s passed t
      → passed < relay_idempotency_ttl_seconds
      → Kept 0 s key
      → Kept passed t key
  unfolding record_relay_pending record_relay_submitted
  Kept-Later key now soon k = k
  Kept-Later key (later_waiting {passed} {t} seconds l) soon k =
      Kept-wait passed seconds t key soon (Kept-Later key l (omega (arith, soon)) k)
  Kept-Later key (later_pending {passed} p l h) soon k =
      Kept-write passed _ p (pending_record p) key h (Kept-Later key l soon k)
  Kept-Later key (later_submitted {passed} p tx_hash time l h) soon k =
      Kept-write passed _ p (submitted_record p tx_hash time) key h (Kept-Later key l soon k)
