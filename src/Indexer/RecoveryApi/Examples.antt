-- ===== src/Indexer/RecoveryApi/Examples.antt =====
-- Runs of the recovery handler over the empty index of one level.
use nullark.Prelude.{◌≡◌, refl, true, false, none, some, [], ◌∷◌, ok, ◌++◌}
use nullark.Prelude.Int.{pos}
use nullark.Prelude.Number.{int}
use nullark.Prelude.Text.{Text, text, to_lower_case}
use nullark.Indexer.MerklePaths.{
  MerklePathIndex, create_merkle_path_index, insert_indexed_commitment,
}
use nullark.Indexer.MerklePaths.Paths.{IsValid}
use nullark.Indexer.MerklePaths.Insert.{
  create_merkle_path_index-IsValid, insert_indexed_commitment-IsValid,
}
use nullark.Indexer.RecoveryApi.{
  RecoveryApiInput, Query, PathBody, refused, served, wallet_fields_not_accepted, status_code,
  v12_mainnet_pool,
}
use nullark.Indexer.RecoveryApi.Handler.{merkle_path}
use nullark.Indexer.RecoveryApi.Served.{IsServed, merkle_path-IsServed}

abbrev join : Text → Text → Text
join left right = text "0x5" ++ (left ++ right)

abbrev leaf : Text
leaf = text "0x00000000000000000000000000000000000000000000000000000000000000Ab"

abbrev empty : MerklePathIndex
empty = record {
  depth = 1;
  zero_hash = text "0x0";
  hash_pair = join;
  leaves_by_index = [];
  index_by_commitment = [];
  sorted_leaf_indexes = none;
  path_cache = [];
  max_path_cache_entries = 0;
}

abbrev filled : MerklePathIndex
filled = record empty {
  leaves_by_index = (1, leaf) ∷ [];
  index_by_commitment =
      (text "0x00000000000000000000000000000000000000000000000000000000000000ab", 1) ∷ [];
}

empty_lem : create_merkle_path_index (int (pos 1)) (text "0x0") join (some 0) ≡ ok empty
unfolding create_merkle_path_index
empty_lem = refl

filled_lem :
    insert_indexed_commitment empty (record { commitment = leaf; leaf_index = int (pos 1) })
    ≡ ok filled
unfolding insert_indexed_commitment
filled_lem = refl

filled-IsValid : IsValid filled
filled-IsValid =
    insert_indexed_commitment-IsValid empty filled
      (record { commitment = leaf; leaf_index = int (pos 1) })
      (create_merkle_path_index-IsValid (int (pos 1)) (text "0x0") join (some 0) empty empty_lem)
      filled_lem

abbrev api : RecoveryApiInput
api = record {
  chain_id = 6343;
  pool = text "0xA1";
  original_pool = none;
  runtime_id = none;
  v12_readiness_evidence = none;
  latest_checked_block = 20;
  scan_start_block = none;
  checked_ranges = none;
  accepted_roots = none;
}

abbrev query : Query
query = (text "chainId", text "6343") ∷ (text "pool", text "0xa1") ∷ (text "commitment", leaf) ∷ []

abbrev body : PathBody
body = record {
  path = record {
    commitment = leaf;
    leaf_index = 1;
    root = join (text "0x0") leaf;
    path_elements = text "0x0" ∷ [];
    path_indices = 1 ∷ [];
  };
  pool = text "0xA1";
  original_pool = none;
  chain_id = 6343;
  runtime_id = none;
  latest_checked_block = 20;
}

served_lem :
    merkle_path api query filled
    ≡ (record filled { sorted_leaf_indexes = some (1 ∷ []) }, served body)
unfolding merkle_path
served_lem = refl

tag_is_refused :
    (merkle_path api ((text "ownerTag", text "") ∷ query) filled).1
    ≡ refused wallet_fields_not_accepted
unfolding merkle_path
tag_is_refused = refl

unknown_is_404 : status_code (merkle_path api query empty).1 ≡ 404
unfolding merkle_path status_code
unknown_is_404 = refl

-- A runtime of v1.2 that is ready.
abbrev ready_api : RecoveryApiInput
ready_api = record {
  chain_id = 4326;
  pool = v12_mainnet_pool;
  original_pool = none;
  runtime_id = some (text "nullark-v1.2-mainnet");
  v12_readiness_evidence = some (record {
    runtime_id = text "nullark-v1.2-mainnet";
    chain_id = 4326;
    pool = v12_mainnet_pool;
    status = text "ready";
    mainnet4326_blocked = false;
    final_readiness = some true;
    evidence_sha256 = text "0x66def458e16ea6ed9d1df9c15a79ec83c23d4d4ccdec631d868f614cc0e94ff4";
    canonical_runtime_source = none;
  });
  latest_checked_block = 20;
  scan_start_block = some 5;
  checked_ranges = some (record { checked_ranges = record { from_block = 3; to_block = 20 } ∷ [] });
  accepted_roots = some (
      (
        to_lower_case (join (text "0x0") leaf),
        record {
          root = join (text "0x0") leaf;
          previous_root = text "0x0";
          inserted_commitment = leaf;
          block_number = 7;
          transaction_hash = text "0x1";
          log_index = 0;
        },
      )
      ∷ []);
}

abbrev ready_query : Query
ready_query =
    (text "chainId", text "4326") ∷ (text "pool", v12_mainnet_pool) ∷ (text "commitment", leaf) ∷ []

abbrev ready_body : PathBody
ready_body = record body {
  pool = v12_mainnet_pool;
  chain_id = 4326;
  runtime_id = some (text "nullark-v1.2-mainnet");
}

ready_served :
    merkle_path ready_api ready_query filled
    ≡ (record filled { sorted_leaf_indexes = some (1 ∷ []) }, served ready_body)
unfolding merkle_path to_lower_case
ready_served = refl

ready_body-IsServed : IsServed ready_api ready_query filled ready_body
ready_body-IsServed =
    merkle_path-IsServed ready_api ready_query filled
      (record filled { sorted_leaf_indexes = some (1 ∷ []) }) ready_body filled-IsValid ready_served
