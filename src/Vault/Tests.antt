-- ===== src/Vault/Tests.antt =====
-- Runs of the vault at concrete values, and the theorems applied there.
use levana_perps.Cosmwasm.{documented-IsDocumented, documented}
use levana_perps.Vault.Requests.{requested, execute_request_withdrawal_lem}
use levana_perps.Prelude.Dict.{Dict}
use levana_perps.Vault.Redistributing.{execute_redistribute_funds_lem, Redistributed}
use levana_perps.Vault.Paying.{execute_process_withdrawal_lem, Fits, paid_out}
use levana_perps.Vault.Sharing.{execute_deposit_lem}
use levana_perps.Vault.Paused.{execute_paused, Frozen}
use levana_perps.Vault.Common.{check_not_paused, add_allocations, asset_balance, get_total_assets}
use levana_perps.Prelude.{
  Result, ok, to_option, ◌>>=◌, Ensures, ◌-◌, ◌*◌, ◌≤◌, ◌≡◌, Option, ltb, if◌then◌else◌, ◌==◌, ℕ,
  refl, Bool, true, false, ◌&&◌, ◌||◌, none, some, List, [], ◌∷◌, arith,
}
use levana_perps.Cw20.Supply.{held}
use levana_perps.Vault.Books.{IsSound}
use levana_perps.Vault.Execute.{
  mint_lp, allot, allocate, send_rest, payments, remove_processed, take_fitting,
  execute_resume_operations, settle_pending, one_coin, resume_operations, sum_bps, execute, deposit,
  execute_deposit, execute_request_withdrawal, execute_process_withdrawal,
  execute_redistribute_funds,
}
use levana_perps.Vault.State.{
  WithdrawalRequest, Config, Vault, Message, Chain, Info, Coin, deposit_liquidity, native,
  bank_send,
}
use levana_perps.Vault.Instantiate.{
  check_markets, from_init, InstantiateMsg, instantiate, init_native,
}
use levana_perps.Vault.Reachable.{created, stepped, Reachable-IsSound}

-- The denomination is 7, the governance 1, the markets 50 and 51; addresses are below 100.
abbrev chain_with : ℕ → Chain
chain_with held = record {
  query_balance = λ denom. some held;
  query_cw20 = λ token. none;
  addr_validate = λ raw. if ltb raw 100 then some raw else none;
  is_hook = λ msg. true;
}

abbrev from : ℕ → List Coin → Info
from sender funds = record { sender = sender; funds = funds }

abbrev coins : ℕ → List Coin
coins amount = record { denom = 7; amount = amount } ∷ []

abbrev setup : InstantiateMsg
setup = record {
  usdc_denom = init_native 7;
  governance = 1;
  markets_allocation_bps = (50, 6000) ∷ (51, 3000) ∷ [];
}

abbrev vault_config : Bool → Config
vault_config halted = record {
  usdc_denom = native 7;
  governance = 1;
  markets_allocation_bps = (50, 6000) ∷ (51, 3000) ∷ [];
  paused = halted;
}

-- User 10 holds 60 of 100 shares, and the users 11 and 10 wait for 30 and 20.
abbrev waiting : Bool → Vault
waiting halted = record {
  config = vault_config halted;
  total_pending_withdrawals = 50;
  queue_id = some 5;
  user_withdrawals = λ u k. (u == 11 && k == 3) || (u == 10 && k == 4);
  withdrawal_queue =
      (3, record { user = 11; amount = 30 }) ∷ (4, record { user = 10; amount = 20 }) ∷ [];
  total_lp_supply = 100;
  lp_balances = (10, 60) ∷ (11, 40) ∷ [];
  market_allocations = (50, 0) ∷ (51, 0) ∷ [];
}

waiting-IsSound : IsSound (waiting false)
waiting-IsSound = record {
  distinct = (refl, (refl, tt));
  total = refl;
  ordered = (omega arith, omega arith, (omega arith, omega arith, omega arith));
  pending = refl;
  fits = omega arith;
  marked = λ u k. ground arith;
}

abbrev sent : Result (Vault × List Message) → Option (List Message)
sent r = to_option (r >>= λ done. ok done.1)

-- A balance of 40 pays the first request alone.
paid_first :
    sent (execute_process_withdrawal ⦃c = documented⦄ (chain_with 40) (waiting false))
    ≡ some (bank_send 11 7 30 ∷ [])
unfolding execute_process_withdrawal take_fitting payments remove_processed settle_pending
paid_first = refl

-- An excess of 100 goes to the markets by 6000 to 3000, and 1 is left for the governance.
lent_excess :
    sent (execute_redistribute_funds ⦃c = documented⦄ (chain_with 150) (from 1 []) (waiting false))
    ≡ some (
        deposit_liquidity (native 7) 50 66
        ∷ deposit_liquidity (native 7) 51 33
        ∷ bank_send 1 7 1
        ∷ [])
unfolding execute_redistribute_funds check_not_paused asset_balance sum_bps allocate allot send_rest
lent_excess = refl

abbrev started : Vault
started = record {
  config = record {
    usdc_denom = native 7;
    governance = 1;
    markets_allocation_bps = (50, 6000) ∷ (51, 3000) ∷ [];
    paused = false;
  };
  total_pending_withdrawals = 0;
  queue_id = none;
  user_withdrawals = λ u k. false;
  withdrawal_queue = [];
  total_lp_supply = 0;
  lp_balances = [];
  market_allocations = (50, 0) ∷ (51, 0) ∷ [];
}

abbrev funded : Vault
funded = record started { total_lp_supply = 40; lp_balances = (10, 40) ∷ [] }

start : instantiate (chain_with 0) (λ denom. true) setup ≡ ok started
unfolding instantiate from_init check_markets sum_bps
start = refl

fund :
    execute ⦃c = documented⦄ (chain_with 40) (from 10 (coins 40)) deposit started ≡ ok (funded, [])
unfolding execute execute_deposit check_not_paused one_coin get_total_assets add_allocations mint_lp
fund = refl

Reachable-IsSound_example : IsSound funded
Reachable-IsSound_example =
    Reachable-IsSound ⦃c = documented⦄ documented-IsDocumented {v = funded} (
      stepped (chain_with 40) (from 10 (coins 40)) deposit started
        (created (chain_with 0) (λ denom. true) setup start) fund)

execute_process_withdrawal_lem_example :
    (taken rest : Dict WithdrawalRequest) × (execute_process_withdrawal ⦃c = documented⦄
        (chain_with 40)
        (waiting false)
      ≡ ok (paid_out taken rest (waiting false), payments 7 taken))
    × Fits 20 40 0 (waiting false).withdrawal_queue taken rest
    × IsSound (paid_out taken rest (waiting false))
execute_process_withdrawal_lem_example =
    execute_process_withdrawal_lem ⦃c = documented⦄ documented-IsDocumented (chain_with 40)
      (waiting false) 40 waiting-IsSound refl refl

execute_redistribute_funds_lem_example :
    Ensures
      (Redistributed 150 (waiting false))
      (execute_redistribute_funds ⦃c = documented⦄ (chain_with 150) (from 1 []) (waiting false))
unfolding asset_balance
execute_redistribute_funds_lem_example =
    execute_redistribute_funds_lem ⦃c = documented⦄ documented-IsDocumented (chain_with 150)
      (from 1 []) (waiting false) 150 refl

execute_request_withdrawal_lem_example :
    execute_request_withdrawal ⦃c = documented⦄ (from 10 []) 15 (waiting false)
    ≡ ok (requested 10 15 (waiting false), [])
execute_request_withdrawal_lem_example =
    execute_request_withdrawal_lem ⦃c = documented⦄ documented-IsDocumented (from 10 []) 15
      (waiting false) waiting-IsSound refl

execute_deposit_lem_example :
    Ensures
      (λ r. r.0.total_lp_supply * (200 - 40) ≤ 100 * 200)
      (execute_deposit ⦃c = documented⦄ (chain_with 200) (from 10 (coins 40)) (waiting false))
unfolding one_coin get_total_assets add_allocations
execute_deposit_lem_example =
    execute_deposit_lem ⦃c = documented⦄ documented-IsDocumented (chain_with 200)
      (from 10 (coins 40)) (waiting false) 40 200 refl refl (omega arith) (omega arith)

abbrev resumed : Vault × List Message
resumed = (record (waiting true) { config = vault_config false }, [])

execute_paused_example : Frozen (from 1 []) (waiting true) resumed
unfolding execute execute_resume_operations
execute_paused_example =
    execute_paused ⦃c = documented⦄ (chain_with 40) (from 1 []) resume_operations (waiting true)
      refl refl
