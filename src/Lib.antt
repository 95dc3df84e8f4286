-- ===== src/Lib.antt =====
-- Nullark: a shielded pool with a TypeScript SDK, an indexer and a relay.
--
-- The parts that are modelled, and how they meet. Deposits are split into notes of fixed
-- denominations, and a note leaves the pool through a public exit whose change is again such notes
-- (Core.Denominations); a withdrawal pays a fee in basis points (Core.Fees); the notes of a viewing key
-- make its balance, and the pool must cover them (Core.Notes). Every accepted commitment is a leaf of
-- a Merkle tree, which the SDK rebuilds (Sdk.Merkle) from the logs that it reads from a node
-- (Sdk.RootLogs). The indexer reads the logs by block ranges and keeps what it has checked
-- (Indexer.Ranges), how late it saw events (Indexer.Freshness), how many it saw (Indexer.Anonymity),
-- and the Merkle path of each commitment (Indexer.MerklePaths); the ingestion of logs (Indexer.LogIngest) writes all but
-- freshness and counts, and the recovery API serves the paths under accepted roots
-- (Indexer.RecoveryApi). The relay sends withdrawals, counts the
-- requests (Relay.RateLimit), relays each one once (Relay.Idempotency), and broadcasts only what its
-- policy lets through (Relay.Broadcaster).
--
-- The files and the code:
--   Core/Denominations  packages/core/src/denominations.ts
--     (splitIntoFixedDenominations, isSupportedFixedDenomination, spendablePublicExitAmountsForNote,
--     assertFixedDenominationPublicExit, normalizeDenominations)
--   Core/Fees           packages/core/src/fees.ts and config.ts
--     (calculateWithdrawalFee, resolveWithdrawalFeeState, normalizeFeeBps, canSweepFees)
--   Core/Notes          packages/core/src/notes.ts
--     (derivePrivateBalance, markSpent, assertPoolSolvent)
--   Indexer/Ranges      services/indexer/src/ranges.ts
--     (createRangeTracker, markCheckedRange, findMissingRanges)
--   Indexer/Freshness   services/indexer/src/freshness.ts
--     (createFreshnessTracker, observeEventLatency)
--   Indexer/Anonymity   services/indexer/src/anonymity.ts
--     (computeAnonymitySetSummary, toUiAnonymitySummary)
--   Indexer/MerklePaths services/indexer/src/merklePaths.ts
--     (createMerklePathIndex, insertIndexedCommitment, getMerklePathForCommitment with its inner
--     hasLeafInRange and getNodeHash)
--   Indexer/LogIngest   services/indexer/src/logIngest.ts
--     (POOL_EVENT_ABI, createIndexerState, ingestPoolLogs, insertAcceptedNoteCommitment)
--   Indexer/EncryptedNotes  services/indexer/src/encryptedNotes.ts
--     (addEncryptedNoteEvent, listEncryptedNoteEvents)
--   Indexer/RecoveryApi services/indexer/src/recoveryApi.ts
--     (merklePath of createRecoveryApiHandlers, in Indexer/RecoveryApi/Handler; getV12RuntimeBinding,
--     hasMatchingV12ReadinessEvidence, hasWalletLinkedDiscoveryField, missingRangeStatus)
--   Indexer/Events      services/indexer/src/events.ts (classifyPoolEvent)
--   Sdk/Merkle          packages/sdk/src/merkle/reconstruct.ts
--     (assertFieldBigint, buildMerkleZeroHashes, insertLeafAndComputeRoot, buildNextSparseMerkleLayer;
--     in Sdk/Merkle/Chain: verifyRootAcceptedChain, assertFieldBytes32, toBytes32; in
--     Sdk/Merkle/Path: verifyMerklePath and the loop of reconstructMerklePathFromRootAcceptedLogs,
--     without the search of the commitment before it)
--   Sdk/RootLogs        packages/sdk/src/merkle/rootLogs.ts
--     (normalizeRootAcceptedLogs and decodeRootAcceptedLogs; in Sdk/RootLogs/Fetch:
--     fetchRootAcceptedLogs; in Sdk/RootLogs/Hints: receiptContainsCommitment,
--     resolveRecoveryToBlock, decodedLogsConfirmHint; in Sdk/RootLogs/Recover:
--     fetchRecoveryHintedRootAcceptedLogs), isHexString and isEvmAddress of packages/sdk/src/types.ts
--   Relay/Store         the key-value store that the relay's functions are given
--   Relay/RateLimit     services/relay/src/rateLimit.ts
--     (checkAndRecordRelayRateLimit, validateRelayRateLimitConfig, canUseHostedIdentityService)
--   Relay/Idempotency   services/relay/src/idempotency.ts
--     (prepareRelayIdempotency, recordRelayPending, recordRelaySubmitted)
--   Relay/Broadcaster   services/relay/src/broadcaster.ts
--     (validateRelayBroadcastRequest, validateMainnetProductionSelectorPolicy, getFunctionSelector,
--     decideNonceTooLowRetry)
--   Prelude             tests, lists, maps in order of insertion, results, integers, JavaScript numbers and texts, a stable sort
-- A name of the code is spelled with underscores here. A loop of the code is a function of its own,
-- named for what it does, beside the function that holds the loop. An exported function that throws
-- returns a `Result`, with one constructor of an error type for each message. Each component has its
-- runs in a module Examples.
--
-- Numbers: a `bigint` is an integer, and block numbers, indexes and times are natural numbers. A
-- `number` that the code tests with `Number.isSafeInteger` is a `Number`, which may be no integer.
-- Fuel: the while loop of the split runs on fuel one above the amount that remains, which is enough
-- since a denomination is at least 1; the digits of a number n are printed on fuel n + 1.
-- The binary search of a leaf runs on fuel equal to the number of leaves, and the eviction of paths on
-- fuel equal to their number; each round shortens what is left. The loop over the pages of logs runs
-- on fuel equal to the number of blocks, and each page takes at least one block.
-- Parameters: the field hash (a function on pairs into the field, where a theorem needs it),
-- keccak256, `Date.parse`, viem's `decodeEventLog`, what the node answers to a request, and the
-- store, whose reads return the last write under the same key until its time to live is over.
-- Texts are lists of UTF-16 units, and their case and white space are those of ASCII.
--
-- Not modelled: calls of the relay that overlap in time, the network, the user interfaces, the
-- encodings and ciphers of other libraries, the contracts and the circuits, and the records
-- of evidence and deployment of packages/core.
pub mod Core
pub mod Indexer
pub mod Prelude
pub mod Relay
pub mod Sdk
