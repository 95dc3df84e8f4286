-- ===== src/Relay.antt =====
-- services/relay: what the relayer checks and records before it broadcasts a withdrawal.
pub mod Store
pub mod RateLimit
pub mod Idempotency
pub mod Broadcaster
