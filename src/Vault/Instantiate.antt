-- ===== src/Vault/Instantiate.antt =====
-- `instantiate` of contracts/vault/src/lib.rs with `UsdcAsset::from_init` of
-- packages/perpswap/src/contracts/vault.rs.
use levana_perps.Prelude.{
  ltb, failed, Result, ◌>>=◌, msg_validation, context, ensure, ok, ◌>>◌, ℕ, Bool, false, not, none,
  [], ◌∷◌,
}
use levana_perps.Prelude.Dict.{Dict, save}
use levana_perps.Vault.State.{cw20, Vault, UsdcAsset, Chain, native}
use levana_perps.Vault.Execute.{sum_bps}

-- `UsdcAssetInit`.
pub data UsdcAssetInit : Type 0 where
  init_cw20 : (address : ℕ) → UsdcAssetInit
  init_native : (denom : ℕ) → UsdcAssetInit

-- `InstantiateMsg`.
pub record InstantiateMsg : Type 0 where
  pub usdc_denom : UsdcAssetInit
  pub governance : ℕ
  pub markets_allocation_bps : Dict ℕ

-- `is_named` is the test that the text of a denomination is not empty.
unfoldable pub from_init : Chain → (ℕ → Bool) → UsdcAssetInit → Result UsdcAsset
from_init e is_named (init_cw20 address) = do
  addr ← context (e.addr_validate address) msg_validation
  ok (cw20 addr)
from_init e is_named (init_native denom) = do ensure (is_named denom) failed; ok (native denom)

-- The loop over the allocations: those of the checked addresses, and the markets stored with nothing.
unfoldable pub check_markets : Chain → Dict ℕ → Dict ℕ → Dict ℕ → Result (Dict ℕ × Dict ℕ)
check_markets e [] checked stored = ok (checked, stored)
check_markets e ((market, bps) ∷ rest) checked stored = do
  addr ← context (e.addr_validate market) msg_validation
  check_markets e rest (save addr bps checked) (save market 0 stored)

unfoldable pub instantiate : Chain → (ℕ → Bool) → InstantiateMsg → Result Vault
unfolding from_init check_markets sum_bps
instantiate e is_named msg = do
  governance ← context (e.addr_validate msg.governance) msg_validation
  total_bps ← sum_bps 0 msg.markets_allocation_bps
  ensure (not (ltb 10000 total_bps)) failed
  markets ← check_markets e msg.markets_allocation_bps [] []
  usdc_asset ← from_init e is_named msg.usdc_denom
  ok (record {
    config = record {
      usdc_denom = usdc_asset;
      governance = governance;
      markets_allocation_bps = markets.0;
      paused = false;
    };
    total_pending_withdrawals = 0;
    queue_id = none;
    user_withdrawals = λ user id. false;
    withdrawal_queue = [];
    total_lp_supply = 0;
    lp_balances = [];
    market_allocations = markets.1;
  })
