-- ===== src/Cw20.antt =====
-- The CW20 token contract: contracts/cw20/src/state/cw20.rs, state/trading_competition.rs and the
-- dispatch of contract.rs.
pub mod State
pub mod Ledger
pub mod Execute
pub mod Supply
pub mod Keeps
pub mod Methods
pub mod Properties
pub mod Guarded
pub mod Competition
pub mod Spending
pub mod Tests
