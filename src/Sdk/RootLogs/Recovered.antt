-- ===== src/Sdk/RootLogs/Recovered.antt =====
-- What `fetchRecoveryHintedRootAcceptedLogs` returns: the logs up to a block that is final, and with a
-- hint only where they confirm it.
use mathlib.Core.Path.{subst}
use nullark.Prelude.{
  ℕ, suc, ◌+◌, ◌≤◌, ◌≡◌, refl, sym, ap, ◌∙◌, ◌⊎◌, inl, inr, Bool, true, false, List, [], ◌∷◌,
  Option, none, some, Result, ok, err, ◌>>=◌, Bool-cases, arith, ltb→le, ==_iff, get_elem?,
  some-injective, ok-injective, bind-ok, throw_if-ok,
}
use nullark.Prelude.Int.{pos, negsuc}
use nullark.Prelude.Number.{Number, int, not_integer}
use nullark.Prelude.Text.{Text}
use nullark.Sdk.Merkle.Chain.{RootAcceptedLogRecord, is_hex_bytes32, big_int, same_hex}
use nullark.Sdk.RootLogs.{
  RawRootAcceptedRpcLog, RootLogsError, DecodedEvent, decode_root_accepted_logs, hint_too_new,
  assert_bytes32,
}
use nullark.Sdk.RootLogs.Fetch.{LogFilter, latest_block_of}
use nullark.Sdk.RootLogs.Hints.{
  RawTransactionReceipt, HintRejection, Hinted, leaves_of, find_index, agrees,
  decoded_logs_confirm_hint,
}
use nullark.Sdk.RootLogs.Finality.{IsFinal, Reaches, resolve_recovery_to_block-IsFinal}
use nullark.Sdk.RootLogs.Recover.{
  RecoverySource, hint, fallback, RecoveryInput, RecoveredLogs, is_beyond, fetch_until,
  read_fallback, read_hinted, use_hinted, read_logs, fetch_recovery_hinted_root_accepted_logs,
}

-- The commitment is a leaf of the logs, up to the case of its digits, at the hinted index if one was
-- given.
pub record IsConfirmed (decoded : List RootAcceptedLogRecord) (commitment : Text)
    (leaf_index_hint : Option Number) : Type 0 where
  pub index : ℕ
  pub leaf : Text
  pub at : get_elem? (leaves_of decoded) index ≡ some leaf
  pub same : same_hex leaf commitment ≡ true
  pub hinted : (leaf_index_hint ≡ none) ⊎ (leaf_index_hint ≡ some (int (pos index)))

record IsFound (commitment : Text) (leaves : List Text) (start found : ℕ) : Type 0 where
  offset : ℕ
  leaf : Text
  from_start : found ≡ start + offset
  at : get_elem? leaves offset ≡ some leaf
  same : same_hex leaf commitment ≡ true

find_index-IsFound :
    (commitment : Text) (leaves : List Text) (start found : ℕ)
    → find_index commitment leaves start ≡ some found
    → IsFound commitment leaves start found
unfolding find_index
find_index-IsFound commitment [] start found h = cc
find_index-IsFound commitment (leaf ∷ leaves) start found h =
    elim (Bool-cases (same_hex leaf commitment)) [
      | inl e ↦
          let same = some-injective (rw e at h) in
          record { offset = 0; leaf = leaf; from_start = omega (arith, same); at = refl; same = e }
      | inr e ↦
          let ih = find_index-IsFound commitment leaves (suc start) found (rw e at h) in
          let from = ih.from_start in
          record {
            offset = suc ih.offset;
            leaf = ih.leaf;
            from_start = omega (arith, from);
            at = ih.at;
            same = ih.same;
          }
    ]

agrees-hinted :
    (i : ℕ) (n : Option Number) → agrees (some i) n ≡ true → (n ≡ none) ⊎ (n ≡ some (int (pos i)))
agrees-hinted i none h = inl refl
agrees-hinted i (some (int (pos n))) h = let same = (==_iff i n).0 h in inr (rw same refl)
agrees-hinted i (some (int (negsuc n))) h = cc
agrees-hinted i (some (not_integer n)) h = cc

confirm-IsConfirmed :
    (decoded : List RootAcceptedLogRecord) (commitment : Text) (n : Option Number)
    → decoded_logs_confirm_hint decoded commitment n ≡ true
    → IsConfirmed decoded commitment n
unfolding decoded_logs_confirm_hint
confirm-IsConfirmed decoded commitment n h =
    by_index (find_index commitment (leaves_of decoded) 0) refl h
  where
    by_index :
        (o : Option ℕ)
        → find_index commitment (leaves_of decoded) 0 ≡ o
        → agrees o n ≡ true
        → IsConfirmed decoded commitment n
    by_index none e a = cc
    by_index (some i) e a =
        let found = find_index-IsFound commitment (leaves_of decoded) 0 i e in
        let offset : found.offset ≡ i = omega (arith, found.from_start) in
        record {
          index = i;
          leaf = found.leaf;
          at = rw offset at found.at;
          same = found.same;
          hinted = agrees-hinted i n a;
        }

assert_bytes32_lem : (s t : Text) → assert_bytes32 s ≡ ok t → t ≡ s
unfolding assert_bytes32
assert_bytes32_lem s t h = elim (Bool-cases (is_hex_bytes32 s)) [
  | inl e ↦ sym (ok-injective (rw e at h))
  | inr e ↦ let impossible = rw e at h in cc
]

is_beyond-le : (f block : Text) → is_beyond (some f) block ≡ false → big_int block ≤ big_int f
is_beyond-le f block h = ltb→le (big_int f) (big_int block) h

module _ (topic : Text) (block_number : Result Text Text)
    (get_logs : RecoverySource → LogFilter → Result Text (List RawRootAcceptedRpcLog))
    (get_transaction_receipt : Text → Result Text (Option RawTransactionReceipt))
    (decode_event_log : List Text → Text → Result Text DecodedEvent) (input : RecoveryInput) where
  -- Logs read up to a block, and confirmed where they were read by the hint.
  pub record IsRecovered (commitment : Text) (r : RecoveredLogs) : Type 0 where
    pub read :
        fetch_until topic block_number get_logs get_transaction_receipt decode_event_log r.source
          input r.to_block
        ≡ ok r.logs
    pub confirmed :
        r.source ≡ hint
        → (decoded : List RootAcceptedLogRecord) × (decode_root_accepted_logs decode_event_log
              r.logs
            ≡ ok decoded)
          × IsConfirmed decoded commitment input.leaf_index_hint

  -- The outcome of a read under a boundary.
  abbrev Reached : Text → Option Text → RecoveredLogs → Type 0
  Reached commitment finalized r =
      Reaches block_number r.to_block finalized × IsRecovered commitment r

  latest-final :
      (finalized : Option Text) (latest : Text)
      → latest_block_of finalized block_number ≡ ok latest
      → (f : Text) → finalized ≡ some f
      → big_int latest ≤ big_int f
  latest-final none latest h f e = cc
  latest-final (some g) latest h f e =
      let same : latest ≡ f = sym (ok-injective h) ∙ some-injective e in rw same (omega arith)

  fallback-IsRecovered :
      (commitment : Text) (finalized : Option Text) (reason : List HintRejection)
      (r : RecoveredLogs)
      → read_fallback topic block_number get_logs get_transaction_receipt decode_event_log input
          finalized reason
        ≡ ok r
      → Reached commitment finalized r
  unfolding read_fallback
  fallback-IsRecovered commitment finalized reason r h =
      let (latest, l, h1) = bind-ok _ _ h in
      let (logs, read, h2) = bind-ok _ _ h1 in
      let found : RecoveredLogs = record {
        source = fallback;
        logs = logs;
        to_block = latest;
        hint_rejected_reason = reason;
      } in
      subst (Reached commitment finalized) {x = found} (ok-injective h2)
        (latest-final finalized latest l, record { read = read; confirmed = λ e. cc })

  hinted-IsRecovered :
      (commitment : Text) (finalized : Option Text) (block : Text)
      (answer : Result RootLogsError (List RawRootAcceptedRpcLog × Bool)) (r : RecoveredLogs)
      → read_hinted topic block_number get_logs get_transaction_receipt decode_event_log input
          commitment block
        ≡ answer
      → is_beyond finalized block ≡ false
      → use_hinted topic block_number get_logs get_transaction_receipt decode_event_log input
          finalized block answer
        ≡ ok r
      → Reached commitment finalized r
  unfolding read_hinted
  hinted-IsRecovered commitment finalized block (ok (logs, true)) r e b h =
      let (read_, read, h1) =
        bind-ok
          (fetch_until topic block_number get_logs get_transaction_receipt decode_event_log hint
            input block)
          (λ logs'. decode_root_accepted_logs decode_event_log logs' >>= λ decoded.
            ok (logs', decoded_logs_confirm_hint decoded commitment input.leaf_index_hint))
          e in
      let (decoded, d, h2) =
        bind-ok (decode_root_accepted_logs decode_event_log read_)
          (λ decoded.
            ok (read_, decoded_logs_confirm_hint decoded commitment input.leaf_index_hint))
          h1 in
      let pair = ok-injective h2 in
      let same : read_ ≡ logs = ap (λ p. p.0) pair in
      let confirms =
        confirm-IsConfirmed decoded commitment input.leaf_index_hint (ap (λ p. p.1) pair) in
      subst (Reached commitment finalized) (ok-injective h) (
        λ f e'. is_beyond-le f block (rw e' at b),
        record { read = rw same at read; confirmed = λ source. (decoded, rw same at d, confirms) },
      )
  hinted-IsRecovered commitment finalized block (ok (logs, false)) r e b h =
      fallback-IsRecovered commitment finalized _ r h
  hinted-IsRecovered commitment finalized block (err e') r e b h =
      fallback-IsRecovered commitment finalized _ r h

  logs-IsRecovered :
      (commitment : Text) (finalized : Option Text) (hinted : Hinted) (r : RecoveredLogs)
      → read_logs topic block_number get_logs get_transaction_receipt decode_event_log input
          commitment finalized hinted
        ≡ ok r
      → Reached commitment finalized r
  logs-IsRecovered commitment finalized (none, reason) r h =
      fallback-IsRecovered commitment finalized reason r h
  logs-IsRecovered commitment finalized (some block, reason) r h =
      let (b, h1) = throw_if-ok (is_beyond finalized block) hint_too_new _ h in
      hinted-IsRecovered commitment finalized block _ r refl b h1

  -- Where a recovery succeeds, the logs are those that the node gives for the pool from its
  -- deployment to the block that is returned. That block lies at least the demanded number of
  -- confirmations below the block number of the node, or is not beyond the last block that the caller
  -- gave; only where the caller gave neither, which the mainnet refuses, there is no such bound. Where the
  -- hint was used, the commitment is, but for case, one of the leaves that the logs decode to, at the
  -- hinted index if one was given.
  pub fetch_recovery_hinted_root_accepted_logs-IsRecovered :
      (r : RecoveredLogs)
      → fetch_recovery_hinted_root_accepted_logs topic block_number get_logs get_transaction_receipt
          decode_event_log input
        ≡ ok r
      → IsFinal block_number r.to_block input.to_block input.min_confirmations
          input.runtime.is_mainnet
        × IsRecovered input.commitment r
  unfolding fetch_recovery_hinted_root_accepted_logs assert_bytes32
  fetch_recovery_hinted_root_accepted_logs-IsRecovered r h =
      let (commitment, c, h1) = bind-ok _ _ h in
      let (finalized, f, h2) = bind-ok _ _ h1 in
      let same = assert_bytes32_lem input.commitment commitment c in
      let (reached, recovered) = logs-IsRecovered commitment finalized _ r h2 in
      (
        resolve_recovery_to_block-IsFinal block_number r.to_block input.to_block finalized
            input.min_confirmations input.runtime.is_mainnet f reached,
        subst (λ s. IsRecovered s r) same recovered,
      )
