-- ===== src/Indexer.antt =====
-- services/indexer: the state that the indexer rebuilds from the pool's event logs.
pub mod Ranges
pub mod Freshness
pub mod Anonymity
pub mod MerklePaths
pub mod Events
pub mod EncryptedNotes
pub mod LogIngest
pub mod RecoveryApi
