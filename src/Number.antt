-- ===== src/Number.antt =====
-- The numbers of packages/perpswap/src/number: the trait `UnsignedDecimal`, `Signed` and `NonZero`.
-- Collateral, Notional, LpToken, Usd and the like are newtypes of `Decimal256`, here its atomics.
pub mod Unsigned
pub mod Signed
pub mod NonZero
pub mod Exact
pub mod Integers
pub mod Order
pub mod Products
pub mod Inverse
pub mod Tests
