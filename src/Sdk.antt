-- ===== src/Sdk.antt =====
-- packages/sdk: what a client of the pool computes for itself.
pub mod Merkle
pub mod RootLogs
