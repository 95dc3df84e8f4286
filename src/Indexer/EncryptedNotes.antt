-- ===== src/Indexer/EncryptedNotes.antt =====
-- services/indexer/src/encryptedNotes.ts: the records of encrypted notes, as far as they are kept and
-- listed. The leaf index of a record is the integer that the code turns into the nearest `number`.
use nullark.Prelude.{
  ℕ, ◌%◌, Bool, false, not, ◌&&◌, Option, List, [], ◌∷◌, ◌++◌, length, leb, ◌==◌, if◌then◌else◌,
  Result, ok, err,
}
use nullark.Prelude.Text.{Text, text_eq, to_lower_case, all_hex}

pub data EncryptedNoteEventType : Type 0 where
  deposit private_transfer withdraw withdraw_change withdraw_output : EncryptedNoteEventType

pub record EncryptedNoteEventRecord : Type 0 where
  pub chain_id : ℕ
  pub pool : Text
  pub event_type : EncryptedNoteEventType
  pub commitment : Text
  pub nullifier : Option Text
  pub leaf_index : ℕ
  pub encrypted_note : Text
  pub encryption_version : ℕ
  pub block_number : ℕ
  pub transaction_hash : Text
  pub log_index : ℕ
  pub observed_at_ms : ℕ
  pub source_rpc : Text

pub record EncryptedNoteCache : Type 0 where
  pub records : List EncryptedNoteEventRecord

pub data NoteError : Type 0 where
  payload_must_be_even_length_hex : NoteError

abbrev pub create_encrypted_note_cache : EncryptedNoteCache
create_encrypted_note_cache = record { records = [] }

-- `/^0x(?:[0-9a-fA-F]{2})*$/`
unfoldable pub is_even_hex : Text → Bool
unfolding all_hex
is_even_hex (zero_unit ∷ x ∷ digits) =
    zero_unit == b'0' && (x == b'x' && (all_hex digits && (length digits % 2) == 0))
is_even_hex _ = false

unfoldable pub add_encrypted_note_event :
    EncryptedNoteCache → EncryptedNoteEventRecord → Result NoteError EncryptedNoteCache
unfolding is_even_hex
add_encrypted_note_event cache r =
    if not (is_even_hex r.encrypted_note)
    then err payload_must_be_even_length_hex
    else ok (record { records = cache.records ++ r ∷ [] })

pub record NoteFilter : Type 0 where
  pub chain_id : ℕ
  pub pool : Text
  pub from_block : ℕ
  pub to_block : ℕ

unfoldable pub matches : NoteFilter → EncryptedNoteEventRecord → Bool
unfolding text_eq to_lower_case
matches filter r =
    r.chain_id == filter.chain_id
    && (text_eq (to_lower_case r.pool) (to_lower_case filter.pool)
        && (leb filter.from_block r.block_number && leb r.block_number filter.to_block))

-- `array.filter`
unfoldable pub list_from :
    NoteFilter → List EncryptedNoteEventRecord → List EncryptedNoteEventRecord
unfolding matches
list_from filter [] = []
list_from filter (r ∷ rest) =
    let others = list_from filter rest in if matches filter r then r ∷ others else others

unfoldable pub list_encrypted_note_events :
    EncryptedNoteCache → NoteFilter → List EncryptedNoteEventRecord
unfolding list_from
list_encrypted_note_events cache filter = list_from filter cache.records
