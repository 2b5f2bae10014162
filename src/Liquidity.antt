-- ===== src/Liquidity.antt =====
-- The liquidity pool of the market contract: contracts/market/src/state/liquidity.rs.
pub mod State
pub mod Stats
pub mod Storage
pub mod Keeping
pub mod Staking
pub mod Provider
pub mod Books
pub mod Linear
pub mod KeepsBooks
pub mod Working
pub mod StakingBooks
pub mod Frames
pub mod DepositBooks
pub mod WithdrawBooks
pub mod Locking
pub mod Run
pub mod Proxy
pub mod Resetting
pub mod Keys
pub mod ResetBooks
pub mod ResetEnds
mod ResetTests
pub mod RunBooks
pub mod Shares
pub mod Tests
pub mod Collateral
pub mod Burning
pub mod Fees
pub mod FeeBalance
pub mod Referral
pub mod ReferralBalance
pub mod ClaimFees
pub mod Claiming
pub mod FeeTests
mod ProxyTests
mod ReferralTests
