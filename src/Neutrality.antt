-- ===== src/Neutrality.antt =====
-- The delta neutrality fee of the market: contracts/market/src/state/delta_neutrality_fee.rs.
pub mod Amount
pub mod Passes
pub mod Charge
pub mod Fund
pub mod Balance
mod Tests
