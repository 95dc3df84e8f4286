-- ===== src/Indexer/RecoveryApi/Handler.antt =====
-- services/indexer/src/recoveryApi.ts: `merklePath` of createRecoveryApiHandlers. A guard that answers
-- ends the handler, as an error that is thrown.
use nullark.Prelude.{
  Bool, true, false, not, ◌||◌, ◌&&◌, Option, none, some, List, [], ◌∷◌, if◌then◌else◌, Result, ok,
  err, ◌>>=◌, ◌>>◌, throw_if,
}
use nullark.Prelude.Text.{Text, text, text_eq, to_lower_case, to_string}
use nullark.Prelude.Map.{get, text_key}
use nullark.Indexer.MerklePaths.{
  MerklePathIndex, MerklePathResult, PathError, get_merkle_path_for_commitment,
}
use nullark.Indexer.LogIngest.{RootRecord}
use nullark.Indexer.RecoveryApi.{
  Query, RecoveryApiInput, Refusal, RecoveryApiResponse, refused, V12RuntimeBinding,
  wallet_fields_not_accepted, unsupported_chain, invalid_query, pool_not_indexed, not_ready,
  invalid_commitment, no_accepted_roots, root_not_confirmed, ranges_incomplete, served,
  path_unavailable, V12RecoveryIndexerReadinessEvidence, has_wallet_linked_discovery_field,
  get_v12_runtime_binding, has_matching_v12_readiness_evidence, missing_range_status, is_partial,
  no_roots, is_commitment,
}

-- `query.chainId !== String(input.chainId)`
abbrev pub is_text : Option Text → Text → Bool
is_text none s = false
is_text (some t) s = text_eq t s

abbrev pub required : Option Text → Result Refusal Text
required none = err invalid_query
required (some s) = ok s

-- `binding && !hasMatchingV12ReadinessEvidence(input, binding)`
abbrev pub lacks_evidence :
    Option V12RuntimeBinding → Option V12RecoveryIndexerReadinessEvidence → Bool
lacks_evidence none evidence = false
lacks_evidence (some binding) evidence = not (has_matching_v12_readiness_evidence evidence binding)

abbrev pub is_bound : Option V12RuntimeBinding → Bool
is_bound none = false
is_bound (some binding) = true

-- The guards, in order; a query that passes them gives its commitment.
unfoldable pub check_query : RecoveryApiInput → Query → Result Refusal Text
unfolding has_wallet_linked_discovery_field get text_eq to_string to_lower_case
    get_v12_runtime_binding has_matching_v12_readiness_evidence is_commitment missing_range_status
check_query input query = do
  throw_if (has_wallet_linked_discovery_field query) wallet_fields_not_accepted
  throw_if (not (is_text (get query (text "chainId")) (to_string 10 input.chain_id)))
      unsupported_chain
  pool ← required (get query (text "pool"))
  commitment ← required (get query (text "commitment"))
  throw_if (not (text_eq (to_lower_case pool) (to_lower_case input.pool))) pool_not_indexed
  let runtime = get_v12_runtime_binding input
  throw_if (runtime.blocked || lacks_evidence runtime.binding input.v12_readiness_evidence)
      not_ready
  throw_if (not (is_commitment commitment)) invalid_commitment
  throw_if (is_bound runtime.binding && is_partial (missing_range_status input))
      (ranges_incomplete (missing_range_status input))
  throw_if (is_bound runtime.binding && no_roots input.accepted_roots) no_accepted_roots
  ok commitment

-- `input.acceptedRoots && !input.acceptedRoots.has(path.root.toLowerCase())`
abbrev pub is_present : Option RootRecord → Bool
is_present none = false
is_present (some r) = true

unfoldable pub root_unconfirmed : Option (List (Text × RootRecord)) → Text → Bool
unfolding get text_eq to_lower_case
root_unconfirmed none root = false
root_unconfirmed (some roots) root = not (is_present (get roots (to_lower_case root)))

-- `originalPool` and `runtimeId` are left out of the body where they are empty texts.
abbrev pub unless_empty : Option Text → Option Text
unless_empty none = none
unless_empty (some []) = none
unless_empty (some (c ∷ s)) = some (c ∷ s)

abbrev pub answer_path :
    RecoveryApiInput
    → MerklePathIndex
    → Result PathError (MerklePathIndex × MerklePathResult)
    → MerklePathIndex × RecoveryApiResponse
answer_path input index (err e) = (index, path_unavailable e (missing_range_status input))
answer_path input index (ok (after, path)) =
    if root_unconfirmed input.accepted_roots path.root then (after, root_not_confirmed) else (
      after,
      served (record {
        path = path;
        pool = input.pool;
        original_pool = unless_empty input.original_pool;
        chain_id = input.chain_id;
        runtime_id = unless_empty input.runtime_id;
        latest_checked_block = input.latest_checked_block;
      }),
    )

abbrev pub answer_query :
    RecoveryApiInput → MerklePathIndex → Result Refusal Text → MerklePathIndex × RecoveryApiResponse
answer_query input index (err refusal) = (index, refused refusal)
answer_query input index (ok commitment) =
    answer_path input index (get_merkle_path_for_commitment index commitment)

unfoldable pub merkle_path :
    RecoveryApiInput → Query → MerklePathIndex → MerklePathIndex × RecoveryApiResponse
unfolding check_query get_merkle_path_for_commitment root_unconfirmed missing_range_status
merkle_path input query index = answer_query input index (check_query input query)
