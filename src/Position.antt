-- ===== src/Position.antt =====
-- Positions: packages/perpswap/src/contracts/market/position.rs.
pub mod State
pub mod Settle
pub mod Prices
pub mod Outcome
pub mod Properties
mod Tests
