-- ===== src/Vault.antt =====
-- The vault contract, contracts/vault/src, which lends the deposits of its users to markets.
pub mod State
pub mod Common
pub mod Execute
pub mod Instantiate
pub mod Queue
pub mod Books
pub mod Paying
pub mod Requests
pub mod Sharing
pub mod Lending
pub mod Portions
pub mod Redistributing
pub mod Properties
pub mod Paused
pub mod Reachable
mod Tests
