-- ===== src/Lib.antt =====
-- Verification of the core of the Levana perpetual swaps contracts: the liquidity pool of the market,
-- the CW20 token, the numbers that both compute with, and the vault.
--
-- The parts. A market (contracts/market) lets providers deposit collateral into a liquidity pool and
-- lends it to positions. A provider holds LP tokens, may stake them into xLP tokens, and gets them back
-- linearly over an unstaking period; fees of positions arrive as yield per token. The pool computes in
-- the fixed-point numbers of packages/perpswap/src/number. Collateral may be a CW20 token
-- (contracts/cw20), which the market receives and pays out.
-- The vault (contracts/vault) takes deposits for shares, lends them to
-- markets and pays withdrawals from a queue.
--
-- Correspondence.
-- Prelude: names of the standard library passed on, fallible values (`Prelude/Fallible`, for
-- `anyhow::Result`), maps (`Prelude/Dict`, for `cw_storage_plus::Map` with an address key) and integers.
-- Cosmwasm: the operations of `Uint128` and `Decimal256` of the crate `cosmwasm_std`, which is not part
-- of the repository: a record of functions, with its documented behaviour as the hypothesis
-- `IsDocumented`, and `documented`, functions for which it holds. A `Decimal256` is its atomics, a
-- natural number below 2^256 that counts units of 10^-18; products and quotients are rounded down.
-- Number: packages/perpswap/src/number. `Unsigned` is the trait `UnsignedDecimal` of types.rs, `Signed`
-- is `Signed` of types.rs and ops.rs, `NonZero` is `NonZero` of types.rs and nonzero.rs.
-- Liquidity: `Stats` is packages/perpswap/src/contracts/market/liquidity.rs; `State`, `Storage`,
-- `Keeping`, `Staking`, `Provider`, `Locking` and `Resetting` are
-- contracts/market/src/state/liquidity.rs, with liquidity/stats.rs and history/lp.rs, one function per
-- method, named as in the source; `Run` is the dispatch of the messages of a provider in
-- contracts/market/src/contract.rs, and `Fees` and `Referral` are contracts/market/src/state/fees.rs
-- and referral.rs. `Proxy` is liquidity/cw20.rs, the messages of the LP and xLP tokens, with the
-- allowances of `Cw20`; its calls are not among those of `Run`.
-- Cw20: `State` and `Ledger` are contracts/cw20/src/state/cw20.rs, `Execute` is contract.rs and
-- state/trading_competition.rs, one function per method and one constructor per message.
-- Funding: `Series` is contracts/market/src/state/data_series.rs.
-- Neutrality: contracts/market/src/state/delta_neutrality_fee.rs; `Amount` is the amount of the fee,
-- `Passes` its passes across zero and `Charge` the charge to a position and its application.
-- Position: `State`, `Settle` and `Prices` are packages/perpswap/src/contracts/market/position.rs with
-- position/closed.rs, for the fields of a position that the settlement of a price exposure touches.
-- Vault: `State` is contracts/vault/src/state.rs with its types, `Common` is common.rs, `Execute` is
-- execute.rs, one function per handler, and `Instantiate` is lib.rs. The balances that the chain
-- answers, the validation of addresses and the parsing of a hook are the record `Chain`.
--
-- State. A call takes the state and returns the new one or an error; a call that fails leaves the state
-- as it was, since the chain drops its writes. A panic is an error. Storage items are fields of `Pool`
-- and of `Token`; the events of the token are a list, the transfers of a call are a map. An address is
-- a number, and its validation is a parameter. Times are nanoseconds; the `u64` of times and of the
-- index of the yields overflows into a panic. What the pool reads of the configuration, of the price
-- and of the open interest is the record `Env`, which may differ at every call. No function needs fuel
-- but `crank_resets`, which repeats the crank of a reset: one crank for each provider and one more are
-- enough. A map holds its entries in no order; where the code takes them in the order of the keys, the
-- addresses are numbered in that order.
--
-- Not modelled: the events of the pool beyond the values that can fail, the cache of the totals within a
-- call (it holds what the storage holds), the assertions of debug builds, the rounding of a transfer to
-- the precision of the token, the marketing data of the token, queries and serialisation; of
-- positions, all but the settlement of a price exposure, the trigger prices and the delta neutrality
-- fee; orders, the choice of crank work and the price feeds, which appear
-- only through their calls of the pool (locking, unlocking, gains and losses, new yield, rewards); and
-- the other contracts (factory, countertrade, copy trading, the proxy contracts and the position
-- token, faucet, tracker), the off-chain tools and the tests.
pub mod Prelude
pub mod Cosmwasm
pub mod Number
pub mod Liquidity
pub mod Cw20
pub mod Vault
pub mod Funding
pub mod Neutrality
pub mod Position
