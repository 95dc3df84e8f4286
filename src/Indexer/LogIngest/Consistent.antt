-- ===== src/Indexer/LogIngest/Consistent.antt =====
-- services/indexer/src/logIngest.ts: what holds of the state between calls, whatever the logs are and
-- wherever a call throws.
use nullark.Prelude.{
  ℕ, true, none, some, [], ◌∷◌, ◌≡◌, sym, ap, ◌∙◌, inl, inr, Bool-cases, Option-cases, Result-cases,
  some-injective, ltb, All, All-append,
}
use mathlib.Core.Path.{subst}
use nullark.Prelude.Int.{pos}
use nullark.Prelude.Number.{int, max_safe_integer}
use nullark.Prelude.Text.{Text, to_lower_case}
use nullark.Prelude.Map.{get, text_key, text_same_iff, put-get, delete-get, delete-other}
use nullark.Indexer.Ranges.{IsMerged}
use nullark.Indexer.MerklePaths.{MerklePathIndex, IndexedCommitment, insert_indexed_commitment}
use nullark.Indexer.MerklePaths.Paths.{IsValid}
use nullark.Indexer.MerklePaths.Insert.{insert_indexed_commitment-IsValid}
use nullark.Indexer.EncryptedNotes.{
  EncryptedNoteEventRecord, is_even_hex, add_encrypted_note_event, deposit, private_transfer,
  withdraw_change, withdraw_output,
}
use nullark.Indexer.LogIngest.{
  PoolEvent, RawPoolLog, RootRecord, RootExpiredRecord, NullifierRecord, IndexerState, IngestInput,
  Outcome, and_then, inserted, noted, insert_into_paths, insert_accepted_note_commitment,
  note_record, ingest_note, ingest_event, deposit_note_created, private_transfer_note_created,
  withdrawal_change_note_created, withdrawal_output_note_created, root_accepted, root_expired,
  nullifier_spent,
}

-- No root is accepted and expired at once; each record stands under its root or nullifier in small
-- letters; the paths, the notes and the ranges are in form.
pub record IsConsistent (s : IndexerState) : Type 0 where
  pub apart :
      (key : Text) (r : RootRecord) (e : RootExpiredRecord)
      → get s.roots key ≡ some r
      → get s.expired_roots key ≡ some e
      → ⊥
  pub rooted : (key : Text) (r : RootRecord) → get s.roots key ≡ some r → to_lower_case r.root ≡ key
  pub expired :
      (key : Text) (r : RootExpiredRecord)
      → get s.expired_roots key ≡ some r
      → to_lower_case r.root ≡ key
  pub spent :
      (key : Text) (r : NullifierRecord)
      → get s.nullifiers key ≡ some r
      → to_lower_case r.nullifier ≡ key
  pub paths : (index : MerklePathIndex) → s.merkle_paths ≡ some index → IsValid index
  pub notes : All (λ r. is_even_hex r.encrypted_note ≡ true) s.encrypted_notes.records
  pub merged : IsMerged s.ranges.checked_ranges

-- What holds before a step and is kept by the steps holds after them, thrown or not.
pub and_then-keeps :
    (P : IndexerState → Type 0) (first : Outcome) (next : IndexerState → Outcome)
    → P first.0
    → ((s : IndexerState) → P s → P (next s).0)
    → P (and_then first next).0
and_then-keeps P (s, some e) next h k = h
and_then-keeps P (s, none) next h k = k s h

module _ (s : IndexerState) (c : IsConsistent s) where
  inserted-IsConsistent :
      (index : MerklePathIndex) (commitment : Text) (i : ℕ)
      → IsValid index
      → IsConsistent
          (inserted s (
            insert_indexed_commitment index
              (record { commitment = commitment; leaf_index = int (pos i) }))).0
  inserted-IsConsistent index commitment i v =
      let add : IndexedCommitment = record { commitment = commitment; leaf_index = int (pos i) } in
      elim (Result-cases (insert_indexed_commitment index add)) [
        | inr (e, refused) ↦ rw refused c
        | inl (after, done) ↦ rw done (record {
          apart = c.apart;
          rooted = c.rooted;
          expired = c.expired;
          spent = c.spent;
          paths = λ other same.
              subst IsValid (some-injective same)
                (insert_indexed_commitment-IsValid index after add v done);
          notes = c.notes;
          merged = c.merged;
        })
      ]

  noted-IsConsistent :
      (r : EncryptedNoteEventRecord)
      → IsConsistent (noted s (add_encrypted_note_event s.encrypted_notes r)).0
  unfolding add_encrypted_note_event
  noted-IsConsistent r = elim (Bool-cases (is_even_hex r.encrypted_note)) [
    | inr odd ↦ rw odd c
    | inl even ↦ rw even (record {
      apart = c.apart;
      rooted = c.rooted;
      expired = c.expired;
      spent = c.spent;
      paths = c.paths;
      notes =
          All-append (λ r. is_even_hex r.encrypted_note ≡ true) s.encrypted_notes.records (r ∷ [])
            c.notes (even, tt);
      merged = c.merged;
    })
  ]

  insert_accepted_note_commitment-IsConsistent :
      (commitment : Text) (i : ℕ) → IsConsistent (insert_accepted_note_commitment s commitment i).0
  unfolding insert_accepted_note_commitment insert_into_paths
  insert_accepted_note_commitment-IsConsistent commitment i = elim (Option-cases s.merkle_paths) [
    | inl e ↦ rw (e, insert_into_paths) c
    | inr (index, e) ↦ elim (Bool-cases (ltb max_safe_integer i)) [
      | inl large ↦ rw (e, insert_into_paths, large) c
      | inr small ↦
          rw (e, insert_into_paths, small)
            (inserted-IsConsistent index commitment i (c.paths index e))
    ]
  ]

ingest_note-IsConsistent :
    (r : EncryptedNoteEventRecord) (s : IndexerState)
    → IsConsistent s
    → IsConsistent (ingest_note r s).0
unfolding ingest_note
ingest_note-IsConsistent r s c =
    and_then-keeps IsConsistent (insert_accepted_note_commitment s r.commitment r.leaf_index) _
      (insert_accepted_note_commitment-IsConsistent s c r.commitment r.leaf_index)
      (λ t d. noted-IsConsistent t d r)

module _ (input : IngestInput) (log : RawPoolLog) (s : IndexerState) (c : IsConsistent s) where
  root_accepted-IsConsistent :
      (root previous inserted_commitment : Text)
      → IsConsistent (ingest_event input log (root_accepted root previous inserted_commitment) s).0
  unfolding ingest_event
  root_accepted-IsConsistent root previous inserted_commitment = record {
    apart = λ key r e p q.
        let other = delete-other s.expired_roots (to_lower_case root) key e q in
        elim (put-get s.roots (to_lower_case root) _ key r p) [
          | inl same ↦ cc (other, (text_same_iff (to_lower_case root) key).1 same.0)
          | inr old ↦
              c.apart key r e old.1 (delete-get s.expired_roots (to_lower_case root) key e q)
        ];
    rooted = λ key r p. elim (put-get s.roots (to_lower_case root) _ key r p) [
      | inl same ↦ ap (λ x. to_lower_case x.root) (sym same.1) ∙ same.0
      | inr old ↦ c.rooted key r old.1
    ];
    expired = λ key e q. c.expired key e (delete-get s.expired_roots (to_lower_case root) key e q);
    spent = c.spent;
    paths = c.paths;
    notes = c.notes;
    merged = c.merged;
  }

  root_expired-IsConsistent :
      (root : Text) → IsConsistent (ingest_event input log (root_expired root) s).0
  unfolding ingest_event
  root_expired-IsConsistent root = record {
    apart = λ key r e p q.
        let other = delete-other s.roots (to_lower_case root) key r p in
        elim (put-get s.expired_roots (to_lower_case root) _ key e q) [
          | inl same ↦ cc (other, (text_same_iff (to_lower_case root) key).1 same.0)
          | inr old ↦ c.apart key r e (delete-get s.roots (to_lower_case root) key r p) old.1
        ];
    rooted = λ key r p. c.rooted key r (delete-get s.roots (to_lower_case root) key r p);
    expired = λ key e q. elim (put-get s.expired_roots (to_lower_case root) _ key e q) [
      | inl same ↦ ap (λ x. to_lower_case x.root) (sym same.1) ∙ same.0
      | inr old ↦ c.expired key e old.1
    ];
    spent = c.spent;
    paths = c.paths;
    notes = c.notes;
    merged = c.merged;
  }

  nullifier_spent-IsConsistent :
      (nullifier : Text) → IsConsistent (ingest_event input log (nullifier_spent nullifier) s).0
  unfolding ingest_event
  nullifier_spent-IsConsistent nullifier = record {
    apart = c.apart;
    rooted = c.rooted;
    expired = c.expired;
    spent = λ key r p. elim (put-get s.nullifiers (to_lower_case nullifier) _ key r p) [
      | inl same ↦ ap (λ x. to_lower_case x.nullifier) (sym same.1) ∙ same.0
      | inr old ↦ c.spent key r old.1
    ];
    paths = c.paths;
    notes = c.notes;
    merged = c.merged;
  }

pub ingest_event-IsConsistent :
    (input : IngestInput) (log : RawPoolLog) (event : PoolEvent) (s : IndexerState)
    → IsConsistent s
    → IsConsistent (ingest_event input log event s).0
unfolding ingest_event
ingest_event-IsConsistent input log (deposit_note_created m i n v) s c =
    ingest_note-IsConsistent (note_record input log deposit m none i n v) s c
ingest_event-IsConsistent input log (private_transfer_note_created m f i n v) s c =
    ingest_note-IsConsistent (note_record input log private_transfer m (some f) i n v) s c
ingest_event-IsConsistent input log (withdrawal_change_note_created m f i g n v) s c =
    ingest_note-IsConsistent (note_record input log withdraw_change m (some f) i n v) s c
ingest_event-IsConsistent input log (withdrawal_output_note_created m f i g n v) s c =
    ingest_note-IsConsistent (note_record input log withdraw_output m (some f) i n v) s c
ingest_event-IsConsistent input log (root_accepted root previous leaf) s c =
    root_accepted-IsConsistent input log s c root previous leaf
ingest_event-IsConsistent input log (root_expired root) s c =
    root_expired-IsConsistent input log s c root
ingest_event-IsConsistent input log (nullifier_spent nullifier) s c =
    nullifier_spent-IsConsistent input log s c nullifier
