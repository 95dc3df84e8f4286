-- ===== src/Core.antt =====
-- packages/core: amounts, fees and notes.
pub mod Denominations
pub mod Fees
pub mod Notes
