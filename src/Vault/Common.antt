-- ===== src/Vault/Common.antt =====
-- contracts/vault/src/common.rs.
use levana_perps.Cosmwasm.{Cosmwasm}
use levana_perps.Prelude.{
  unwrap_or, failed, panic, ensure, overflow, ◌>>=◌, Result, context, ok, ℕ, not, some, [], ◌∷◌,
}
use levana_perps.Prelude.Dict.{Dict}
use levana_perps.Vault.State.{Vault, Config, UsdcAsset, to_string, Chain, native, cw20}
use levana_perps.Cw20.State.{balance}

pub record VaultBalanceResponse : Type 0 where
  pub vault_balance : ℕ
  pub allocated_amount : ℕ
  pub pending_withdrawals : ℕ
  pub total_allocated : ℕ

unfoldable pub check_not_paused : Config → Result (Unit {0})
check_not_paused config = ensure (not config.paused) failed

module _ ⦃c : Cosmwasm⦄ where
  -- The sum by `try_fold` with `+`.
  unfoldable pub add_allocations : ℕ → Dict ℕ → Result ℕ
  add_allocations acc [] = ok acc
  add_allocations acc ((market, amount) ∷ rest) = do
    more ← context (c.uint128_add acc amount) panic
    add_allocations more rest

  unfoldable pub get_total_assets : Chain → Vault → Result ℕ
  unfolding add_allocations
  get_total_assets e v = do
    balance ← context (e.query_balance (to_string v.config.usdc_denom)) failed
    allocated ← add_allocations 0 v.market_allocations
    context (c.uint128_checked_add balance allocated) overflow

  -- The balance of the vault in its asset.
  unfoldable pub asset_balance : Chain → UsdcAsset → Result ℕ
  asset_balance e (cw20 addr) = context (e.query_cw20 addr) failed
  asset_balance e (native denom) = context (e.query_balance denom) failed

  unfoldable pub get_vault_balance : Chain → Vault → Result VaultBalanceResponse
  unfolding asset_balance add_allocations
  get_vault_balance e v = do
    balance ← asset_balance e v.config.usdc_denom
    allocated ← add_allocations 0 v.market_allocations
    total ← context (c.uint128_checked_add balance allocated) overflow
    ok (record {
      vault_balance = balance;
      allocated_amount = allocated;
      pending_withdrawals = v.total_pending_withdrawals;
      total_allocated = total;
    })

  -- `get_and_increment_queue_id`, with the state that it leaves.
  unfoldable pub get_and_increment_queue_id : Vault → Result (ℕ × Vault)
  get_and_increment_queue_id v = do
    let current = unwrap_or v.queue_id 0
    next ← context (c.uint64_add current 1) panic
    ok (current, record v { queue_id = some next })
