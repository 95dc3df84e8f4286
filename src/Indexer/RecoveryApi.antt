-- ===== src/Indexer/RecoveryApi.antt =====
-- services/indexer/src/recoveryApi.ts: the handler that serves the Merkle path of a commitment. A query
-- is the list of its fields; a response is named for what its body says. Limits, sources and other texts
-- that are always the same are left out of the bodies.
pub mod Handler
pub mod Complete
pub mod Conditions
pub mod Admitted
pub mod Served
mod Examples
use nullark.Prelude.{
  ℕ, zero, suc, ◌+◌, Bool, true, false, not, ◌||◌, ◌&&◌, Option, none, some, List, [], ◌∷◌, length,
  ltb, ◌==◌, any_of, is_empty, if◌then◌else◌,
}
use nullark.Prelude.Text.{Text, text, text_eq, to_lower_case, all_hex, starts_with}
use nullark.Indexer.Ranges.{BlockRange, RangeTracker, find_missing_ranges}
use nullark.Indexer.MerklePaths.{MerklePathResult, PathError}
use nullark.Indexer.LogIngest.{RootRecord}

pub record V12RecoveryIndexerReadinessEvidence : Type 0 where
  pub runtime_id : Text
  pub chain_id : ℕ
  pub pool : Text
  pub status : Text
  pub mainnet4326_blocked : Bool
  pub final_readiness : Option Bool
  pub evidence_sha256 : Text
  pub canonical_runtime_source : Option Text

pub record V12RuntimeBinding : Type 0 where
  pub runtime_id : Text
  pub chain_id : ℕ
  pub pool : Text
  pub approved_evidence_hashes : List Text

-- The index is passed on its own, since a call changes its cache.
pub record RecoveryApiInput : Type 0 where
  pub chain_id : ℕ
  pub pool : Text
  pub original_pool : Option Text
  pub runtime_id : Option Text
  pub v12_readiness_evidence : Option V12RecoveryIndexerReadinessEvidence
  pub latest_checked_block : ℕ
  pub scan_start_block : Option ℕ
  pub checked_ranges : Option RangeTracker
  pub accepted_roots : Option (List (Text × RootRecord))

abbrev pub Query : Type 0
Query = List (Text × Text)

pub record RangeStatus : Type 0 where
  pub partial_sync : Bool
  pub missing_range_count : ℕ
  pub missing_ranges : List BlockRange
  pub missing_ranges_truncated : Bool

pub record PathBody : Type 0 where
  pub path : MerklePathResult
  pub pool : Text
  pub original_pool : Option Text
  pub chain_id : ℕ
  pub runtime_id : Option Text
  pub latest_checked_block : ℕ

-- What a guard answers.
pub data Refusal : Type 0 where
  wallet_fields_not_accepted unsupported_chain invalid_query pool_not_indexed : Refusal
  not_ready invalid_commitment no_accepted_roots : Refusal
  ranges_incomplete : Option RangeStatus → Refusal

pub data RecoveryApiResponse : Type 0 where
  refused : Refusal → RecoveryApiResponse
  root_not_confirmed : RecoveryApiResponse
  served : PathBody → RecoveryApiResponse
  path_unavailable : PathError → Option RangeStatus → RecoveryApiResponse

abbrev refusal_code : Refusal → ℕ
refusal_code wallet_fields_not_accepted = 400
refusal_code unsupported_chain = 400
refusal_code invalid_query = 400
refusal_code pool_not_indexed = 404
refusal_code not_ready = 503
refusal_code invalid_commitment = 400
refusal_code no_accepted_roots = 503
refusal_code (ranges_incomplete status) = 503

unfoldable pub status_code : RecoveryApiResponse → ℕ
status_code (refused refusal) = refusal_code refusal
status_code root_not_confirmed = 409
status_code (served body) = 200
status_code (path_unavailable e status) = 404

abbrev pub max_recovery_api_missing_ranges : ℕ
max_recovery_api_missing_ranges = 25

abbrev pub v12_mainnet_pool : Text
v12_mainnet_pool = text "0x08bA57aA9Bc13Ccaf0dda0Fb7Cd7A2570b0FE4d8"

abbrev pub v12_approved_hashes : List Text
v12_approved_hashes =
    text "0x66def458e16ea6ed9d1df9c15a79ec83c23d4d4ccdec631d868f614cc0e94ff4"
    ∷ text "0xb87aa47a407f0347a920fcebe76f84d402be8bd5e82f5fe5980ffea557bfa996"
    ∷ []

abbrev pub v12_runtime_bindings : List V12RuntimeBinding
v12_runtime_bindings =
    record {
      runtime_id = text "nullark-v1.2-mainnet";
      chain_id = 4326;
      pool = v12_mainnet_pool;
      approved_evidence_hashes = v12_approved_hashes;
    }
    ∷ record {
      runtime_id = text "nullark-v1.2-fee-governance";
      chain_id = 4326;
      pool = v12_mainnet_pool;
      approved_evidence_hashes = v12_approved_hashes;
    }
    ∷ []

-- `s.includes(part)`
unfoldable pub includes_text : Text → Text → Bool
unfolding starts_with
includes_text part [] = starts_with part []
includes_text part (c ∷ s) = starts_with part (c ∷ s) || includes_text part s

abbrev pub forbidden_fields : List Text
forbidden_fields =
    text "discoveryTag"
    ∷ text "futureNullifier"
    ∷ text "ownerAddress"
    ∷ text "ownerTag"
    ∷ text "publicDiscoveryTag"
    ∷ text "stableDiscoveryTag"
    ∷ text "walletAddress"
    ∷ text "walletDiscoveryTag"
    ∷ text "walletTag"
    ∷ []

unfoldable pub is_forbidden_field : Text → Bool
unfolding text_eq any_of includes_text to_lower_case
is_forbidden_field key =
    any_of (text_eq key) forbidden_fields
    || (includes_text (text "wallet") (to_lower_case key)
        || (includes_text (text "discovery") (to_lower_case key)
            || (includes_text (text "tag") (to_lower_case key)
                || includes_text (text "nullifier") (to_lower_case key))))

unfoldable pub has_wallet_linked_discovery_field : Query → Bool
unfolding is_forbidden_field any_of
has_wallet_linked_discovery_field query = any_of (λ field. is_forbidden_field field.0) query

unfoldable pub binds : Text → ℕ → Text → V12RuntimeBinding → Bool
unfolding text_eq to_lower_case
binds runtime_id chain_id pool candidate =
    text_eq candidate.runtime_id runtime_id
    && (candidate.chain_id == chain_id
        && text_eq (to_lower_case candidate.pool) (to_lower_case pool))

-- `array.find(p)`
unfoldable pub find_binding :
    (V12RuntimeBinding → Bool) → List V12RuntimeBinding → Option V12RuntimeBinding
find_binding p [] = none
find_binding p (b ∷ rest) = let later = find_binding p rest in if p b then some b else later

pub record RuntimeBinding : Type 0 where
  pub binding : Option V12RuntimeBinding
  pub blocked : Bool

unfoldable pub get_v12_runtime_binding : RecoveryApiInput → RuntimeBinding
unfolding binds find_binding text_eq includes_text
get_v12_runtime_binding input = elim input.runtime_id [
  | none ↦ record { binding = none; blocked = false }
  | some id ↦
      if text_eq id (text "nullark-v1.1-mainnet")
      then record { binding = none; blocked = false }
      else (elim (find_binding (binds id input.chain_id input.pool) v12_runtime_bindings) [
        | some b ↦ record { binding = some b; blocked = false }
        | none ↦ record { binding = none; blocked = includes_text (text "v1.2") id }
      ])
]

abbrev pub known_source : Option Text → Bool
known_source none = true
known_source (some source) =
    text_eq source (text "public-artifacts/current.json")
    || text_eq source (text "apps/web/public/proving/trusted-setup-record.json")

abbrev pub is_final : Option Bool → Bool
is_final (some true) = true
is_final _ = false

unfoldable pub has_matching_v12_readiness_evidence :
    Option V12RecoveryIndexerReadinessEvidence → V12RuntimeBinding → Bool
unfolding text_eq to_lower_case any_of
has_matching_v12_readiness_evidence none binding = false
has_matching_v12_readiness_evidence (some evidence) binding =
    text_eq evidence.runtime_id binding.runtime_id
    && (text_eq evidence.status (text "ready")
        && (not evidence.mainnet4326_blocked
            && (is_final evidence.final_readiness
                && (evidence.chain_id == binding.chain_id
                    && (text_eq (to_lower_case evidence.pool) (to_lower_case binding.pool)
                        && (any_of
                              (λ hash.
                                text_eq (to_lower_case hash)
                                  (to_lower_case evidence.evidence_sha256))
                              binding.approved_evidence_hashes
                            && known_source evidence.canonical_runtime_source))))))

abbrev pub slice_ranges : ℕ → List BlockRange → List BlockRange
slice_ranges zero ranges = []
slice_ranges (suc n) [] = []
slice_ranges (suc n) (r ∷ ranges) = r ∷ slice_ranges n ranges

abbrev pub or_block_zero : Option ℕ → ℕ
or_block_zero none = 0
or_block_zero (some b) = b

unfoldable pub status_of_ranges : RangeTracker → ℕ → ℕ → RangeStatus
unfolding find_missing_ranges
status_of_ranges tracker start latest =
    let missing = find_missing_ranges tracker (record { from_block = start; to_block = latest }) in
    let visible = slice_ranges max_recovery_api_missing_ranges missing in
    if ltb latest start
    then record {
      partial_sync = true;
      missing_range_count = 0;
      missing_ranges = [];
      missing_ranges_truncated = false;
    }
    else record {
      partial_sync = ltb 0 (length missing);
      missing_range_count = length missing;
      missing_ranges = visible;
      missing_ranges_truncated = ltb (length visible) (length missing);
    }

unfoldable pub missing_range_status : RecoveryApiInput → Option RangeStatus
unfolding status_of_ranges
missing_range_status input = elim input.checked_ranges [
  | none ↦ none
  | some tracker ↦
      some
        (status_of_ranges tracker (or_block_zero input.scan_start_block) input.latest_checked_block)
]

-- `rangeStatus.partialSync !== false`
abbrev pub is_partial : Option RangeStatus → Bool
is_partial none = true
is_partial (some status) = status.partial_sync

abbrev pub no_roots : Option (List (Text × RootRecord)) → Bool
no_roots none = true
no_roots (some roots) = is_empty roots

-- `/^0x[0-9a-fA-F]{64}$/`
unfoldable pub is_commitment : Text → Bool
unfolding starts_with all_hex
is_commitment [] = false
is_commitment (c ∷ []) = false
is_commitment (z ∷ x ∷ digits) = z == b'0' && (x == b'x' && (all_hex digits && length digits == 64))
