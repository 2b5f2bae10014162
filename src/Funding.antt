-- ===== src/Funding.antt =====
-- The accumulated rates of the market: contracts/market/src/state/data_series.rs.
pub mod Series
pub mod Parts
pub mod Integral
pub mod Properties
mod Tests
