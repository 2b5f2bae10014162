-- ===== src/Vault/Paused.antt =====
-- The vault while it is paused: the guards of contracts/vault/src/execute.rs.
use levana_perps.Prelude.Dict.{size}
use levana_perps.Prelude.Dict.{Dict, save}
use levana_perps.Cosmwasm.{Cosmwasm}
use levana_perps.Prelude.{
  ltb, failed, msg_validation, context, Ensures-ok, ℕ, refl, false, not, ◌==◌, auth, ◌>>=◌, ok,
  Ensures, Result, ensure, Ensures-then, ◌≡◌, true, List, [], arith,
}
use levana_perps.Vault.Common.{check_not_paused}
use levana_perps.Vault.Execute.{
  sum_bps, execute_request_withdrawal, execute_withdraw_from_market, execute_receive,
  execute_deposit, execute_redistribute_funds, execute_update_allocations, execute_collect_yield,
  execute_add_market, execute_process_withdrawal, execute_emergency_pause, check_token,
  execute_resume_operations, ExecuteMsg, execute, deposit, receive, request_withdrawal,
  redistribute_funds, collect_yield, process_withdrawal, withdraw_from_market, emergency_pause,
  resume_operations, update_allocations, add_market,
}
use levana_perps.Vault.State.{Config, Vault, Message, Chain, Info}

-- What a call leaves alone, and whom it serves, while the vault is paused.
pub record Frozen (info : Info) (v : Vault) (done : Vault × List Message) : Type 0 where
  pub governed : info.sender ≡ v.config.governance
  pub silent : done.1 ≡ []
  pub kept_queue : done.0.withdrawal_queue ≡ v.withdrawal_queue
  pub kept_pending : done.0.total_pending_withdrawals ≡ v.total_pending_withdrawals
  pub kept_balances : done.0.lp_balances ≡ v.lp_balances
  pub kept_supply : done.0.total_lp_supply ≡ v.total_lp_supply

module _ (v : Vault) (halted : v.config.paused ≡ true) where
  -- A handler that tests first that the vault is not paused fails.
  refused :
      (Q : Vault × List Message → Type 0) (next : Unit {0} → Result (Vault × List Message))
      → Ensures Q (check_not_paused v.config >>= next)
  unfolding check_not_paused
  refused Q next = rw halted tt

  governed_by :
      (info : Info) {u : Unit {0}}
      → ensure (info.sender == v.config.governance) auth ≡ ok u
      → info.sender ≡ v.config.governance
  governed_by info h = ground (arith, h)

  left_alone :
      (info : Info) (config : Config) (allocations : Dict ℕ)
      → info.sender ≡ v.config.governance
      → Frozen info v (record v { config = config; market_allocations = allocations }, [])
  left_alone info config allocations by = record {
    governed = by;
    silent = refl;
    kept_queue = refl;
    kept_pending = refl;
    kept_balances = refl;
    kept_supply = refl;
  }

  module _ ⦃c : Cosmwasm⦄ (e : Chain) (info : Info) where
    message-Frozen : (msg : ExecuteMsg) → Ensures (Frozen info v) (execute e info msg v)
    unfolding execute execute_deposit execute_receive execute_request_withdrawal
        execute_redistribute_funds execute_collect_yield execute_process_withdrawal
        execute_withdraw_from_market execute_emergency_pause execute_resume_operations
        execute_update_allocations execute_add_market
    message-Frozen deposit = refused _ _
    message-Frozen (receive sender amount msg) =
        Ensures-then _ (check_token v.config.usdc_denom info.sender) _ λ _ _. refused _ _
    message-Frozen (request_withdrawal amount) = refused _ _
    message-Frozen redistribute_funds = refused _ _
    message-Frozen collect_yield = refused _ _
    message-Frozen process_withdrawal = rw halted tt
    message-Frozen (withdraw_from_market market amount) = refused _ _
    message-Frozen emergency_pause =
        Ensures-then _ (ensure (info.sender == v.config.governance) auth) _ λ _ by.
          left_alone info (record v.config { paused = true }) v.market_allocations
            (governed_by info by)
    message-Frozen resume_operations =
        Ensures-then _ (ensure (info.sender == v.config.governance) auth) _ λ _ by.
          left_alone info (record v.config { paused = false }) v.market_allocations
            (governed_by info by)
    message-Frozen (update_allocations news) =
        Ensures-then _ (ensure (info.sender == v.config.governance) auth) _ λ _ by.
          Ensures-then _ (ensure (size news == size v.market_allocations) failed) _ λ _ _.
            Ensures-then _ (sum_bps 0 news) _ λ total _.
              Ensures-then _ (ensure (not (total == 0)) failed) _ λ _ _.
                Ensures-then _ (ensure (not (ltb 10000 total)) failed) _ λ _ _.
                  left_alone info (record v.config { markets_allocation_bps = news })
                    v.market_allocations (governed_by info by)
    message-Frozen (add_market market) =
        Ensures-then _ (ensure (info.sender == v.config.governance) auth) _ λ _ by.
          Ensures-then _ (context (e.addr_validate market) msg_validation) _ λ addr _.
            left_alone info v.config (save addr 0 v.market_allocations) (governed_by info by)

-- While the vault is paused, only the governance gets a message through: it sends nothing, and the
-- queue, the pending withdrawals, the balances of shares and their supply stay as they are.
pub execute_paused :
    ⦃c : Cosmwasm⦄ (e : Chain) (info : Info) (msg : ExecuteMsg) (v : Vault)
    {done : Vault × List Message}
    → v.config.paused ≡ true
    → execute e info msg v ≡ ok done
    → Frozen info v done
execute_paused e info msg v halted h =
    Ensures-ok (Frozen info v) (execute e info msg v) (message-Frozen v halted e info msg) h
