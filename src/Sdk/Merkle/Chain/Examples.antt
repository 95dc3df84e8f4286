-- ===== src/Sdk/Merkle/Chain/Examples.antt =====
-- Runs of a history of two logs on a tree of depth two, under a small hash.
use nullark.Prelude.{◌≡◌, refl, [], ◌∷◌, map, ok, err}
use nullark.Sdk.Merkle.{previous_root_mismatch}
use nullark.Sdk.Merkle.Chain.{
  RootAcceptedLogRecord, VerifiedChain, big_int, to_bytes32, verify_root_accepted_chain,
}
use nullark.Sdk.Merkle.Examples.{
  small_node, small_hash, small_hash-IsFieldHash, three_levels-IsZeros,
}
use nullark.Sdk.Merkle.Chain.Roots.{Replays}
use nullark.Sdk.Merkle.Chain.History.{verify_root_accepted_chain-Replays}

abbrev start_log : RootAcceptedLogRecord
start_log = record {
  root = to_bytes32 63;
  previous_root = to_bytes32 0;
  inserted_commitment = to_bytes32 0;
}

abbrev first_log : RootAcceptedLogRecord
first_log = record {
  root = to_bytes32 83;
  previous_root = to_bytes32 63;
  inserted_commitment = to_bytes32 13;
}

abbrev verified : VerifiedChain
verified = record { leaves = to_bytes32 13 ∷ []; root = to_bytes32 83 }

history_verified :
    verify_root_accepted_chain small_hash 2 (0 ∷ 7 ∷ 63 ∷ []) (start_log ∷ first_log ∷ [])
    ≡ ok verified
unfolding verify_root_accepted_chain to_bytes32
history_verified = refl

stale_root_refused :
    verify_root_accepted_chain small_hash 2
      (0 ∷ 7 ∷ 63 ∷ [])
      (start_log ∷ first_log ∷ first_log ∷ [])
    ≡ err previous_root_mismatch
unfolding verify_root_accepted_chain to_bytes32
stale_root_refused = refl

history-Replays :
    Replays small_node 2
      (to_bytes32 63)
      []
      (to_bytes32 63)
      (start_log ∷ first_log ∷ [])
      (map big_int verified.leaves)
      verified.root
history-Replays =
    verify_root_accepted_chain-Replays small_hash small_node small_hash-IsFieldHash 2
      (0 ∷ 7 ∷ 63 ∷ []) three_levels-IsZeros (start_log ∷ first_log ∷ []) verified history_verified

-- A start that comes late is accepted, and leaves a root that is not that of the leaves.
late_start_accepted :
    verify_root_accepted_chain small_hash 2
      (0 ∷ 7 ∷ 63 ∷ [])
      (start_log ∷ first_log ∷ start_log ∷ [])
    ≡ ok (record { leaves = to_bytes32 13 ∷ []; root = to_bytes32 63 })
unfolding verify_root_accepted_chain to_bytes32
late_start_accepted = refl
