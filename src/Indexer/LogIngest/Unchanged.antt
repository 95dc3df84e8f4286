-- ===== src/Indexer/LogIngest/Unchanged.antt =====
-- services/indexer/src/logIngest.ts: what the steps on notes leave as it was.
use nullark.Prelude.{
  ℕ, Option, none, some, ◌≡◌, refl, ap, inl, inr, Bool-cases, ltb, Result, ok, err,
}
use nullark.Prelude.Number.{max_safe_integer}
use nullark.Prelude.Text.{Text}
use nullark.Prelude.Map.{text_key}
use nullark.Indexer.MerklePaths.{MerklePathIndex, PathError}
use nullark.Indexer.EncryptedNotes.{
  EncryptedNoteCache, EncryptedNoteEventRecord, NoteError, add_encrypted_note_event,
}
use nullark.Indexer.LogIngest.Consistent.{and_then-keeps}
use nullark.Indexer.LogIngest.{
  IndexerState, Outcome, and_then, inserted, noted, insert_into_paths,
  insert_accepted_note_commitment, ingest_note,
}

-- What a step on notes leaves as it was.
pub record SameRoots (s t : IndexerState) : Type 0 where
  pub same_roots : t.roots ≡ s.roots
  pub same_expired : t.expired_roots ≡ s.expired_roots
  pub same_ranges : t.ranges ≡ s.ranges

SameRoots-inserted :
    (s t : IndexerState) (r : Result PathError MerklePathIndex)
    → SameRoots s t
    → SameRoots s (inserted t r).0
SameRoots-inserted s t (ok index) h = record {
  same_roots = h.same_roots;
  same_expired = h.same_expired;
  same_ranges = h.same_ranges;
}
SameRoots-inserted s t (err e) h = h

SameRoots-noted :
    (s t : IndexerState) (r : Result NoteError EncryptedNoteCache)
    → SameRoots s t
    → SameRoots s (noted t r).0
SameRoots-noted s t (ok cache) h = record {
  same_roots = h.same_roots;
  same_expired = h.same_expired;
  same_ranges = h.same_ranges;
}
SameRoots-noted s t (err e) h = h

SameRoots-into_paths :
    (s t : IndexerState) (paths : Option MerklePathIndex) (commitment : Text) (i : ℕ)
    → SameRoots s t
    → SameRoots s (insert_into_paths t paths commitment i).0
unfolding insert_into_paths
SameRoots-into_paths s t none commitment i h = h
SameRoots-into_paths s t (some index) commitment i h = elim (Bool-cases (ltb max_safe_integer i)) [
  | inl large ↦ rw large h
  | inr small ↦ rw small (SameRoots-inserted s t _ h)
]

pub SameRoots-note :
    (r : EncryptedNoteEventRecord) (s : IndexerState) → SameRoots s (ingest_note r s).0
unfolding ingest_note insert_accepted_note_commitment
SameRoots-note r s =
    and_then-keeps (SameRoots s) (insert_accepted_note_commitment s r.commitment r.leaf_index) _
      (SameRoots-into_paths s s s.merkle_paths r.commitment r.leaf_index
        (record { same_roots = refl; same_expired = refl; same_ranges = refl }))
      (λ t h. SameRoots-noted s t (add_encrypted_note_event t.encrypted_notes r) h)

-- What two steps that throw nothing did.
pub and_then-done :
    (first : Outcome) (next : IndexerState → Outcome) (t : IndexerState)
    → and_then first next ≡ (t, none)
    → (first ≡ (first.0, none)) × (next first.0 ≡ (t, none))
and_then-done (s, none) next t h = (refl, h)
and_then-done (s, some e) next t h = cc (ap (λ o. o.1) h)
