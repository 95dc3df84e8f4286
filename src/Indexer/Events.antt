-- ===== src/Indexer/Events.antt =====
-- services/indexer/src/events.ts: the kind of an event by its name. The table is a plain object, whose
-- inherited properties are found as well: for the name of one the code returns a function.
use nullark.Prelude.{◌≡◌, refl, Bool, false, List, [], ◌∷◌, any_of, if◌then◌else◌}
use nullark.Prelude.Text.{Text, text, text_eq}

pub data EventKind : Type 0 where
  deposit private_transfer nullifier withdrawal withdrawal_output_note fees_accrued fees_swept :
      EventKind
  unknown : EventKind
  inherited_property : EventKind

pub record ClassifiedPoolEvent : Type 0 where
  pub kind : EventKind
  pub authoritative_for_balance : Bool

-- The properties of `Object.prototype`.
abbrev inherited_names : List Text
inherited_names =
    text "constructor"
    ∷ text "hasOwnProperty"
    ∷ text "isPrototypeOf"
    ∷ text "propertyIsEnumerable"
    ∷ text "toLocaleString"
    ∷ text "toString"
    ∷ text "valueOf"
    ∷ text "__proto__"
    ∷ text "__defineGetter__"
    ∷ text "__defineSetter__"
    ∷ text "__lookupGetter__"
    ∷ text "__lookupSetter__"
    ∷ []

-- `kindByName[name] ?? "unknown"`
unfoldable pub kind_by_name : Text → EventKind
unfolding text_eq any_of
kind_by_name name =
    if text_eq name (text "DepositCommitmentInserted")
    then deposit
    else if text_eq name (text "PrivateTransferCommitmentInserted")
    then private_transfer
    else if text_eq name (text "NullifierSpent")
    then nullifier
    else if text_eq name (text "WithdrawalExecuted")
    then withdrawal
    else if text_eq name (text "WithdrawalOutputNoteCreated")
    then withdrawal_output_note
    else if text_eq name (text "ProtocolFeesAccrued")
    then fees_accrued
    else if text_eq name (text "ProtocolFeesSwept")
    then fees_swept
    else if any_of (text_eq name) inherited_names
    then inherited_property
    else unknown

unfoldable pub classify_pool_event : Text → ClassifiedPoolEvent
unfolding kind_by_name
classify_pool_event name = record { kind = kind_by_name name; authoritative_for_balance = false }

spent_is_nullifier :
    classify_pool_event (text "NullifierSpent")
    ≡ record { kind = nullifier; authoritative_for_balance = false }
unfolding classify_pool_event
spent_is_nullifier = refl

inherited_is_found :
    classify_pool_event (text "toString")
    ≡ record { kind = inherited_property; authoritative_for_balance = false }
unfolding classify_pool_event
inherited_is_found = refl
