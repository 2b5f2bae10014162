-- ===== src/Vault/Properties.antt =====
-- A whole call of the vault: `execute` of contracts/vault/src/execute.rs.
use levana_perps.Prelude.Dict.{size}
use levana_perps.Cosmwasm.{IsDocumented, Cosmwasm}
use levana_perps.Number.NonZero.{non_zero}
use levana_perps.Prelude.{
  if◌then◌else◌, unwrap_or, ltb, Option-cases, ◌==◌, Bool-cases, ensure, not_found, Ensures-bind,
  Result, ok, auth, failed, Ensures-then, msg_validation, panic, Ensures, Ensures-ok, context, ℕ,
  ◌≡◌, inl, inr, true, false, not, List,
}
use levana_perps.Prelude.Dict.{may_load, save}
use levana_perps.Vault.Paying.{execute_process_withdrawal_lem}
use levana_perps.Vault.Sharing.{mint_lp-IsSound}
use levana_perps.Vault.Requests.{request-IsSound}
use levana_perps.Vault.Common.{asset_balance, get_total_assets, check_not_paused}
use levana_perps.Cw20.Supply.{held}
use levana_perps.Vault.Books.{configured-IsSound, IsSound}
use levana_perps.Vault.Execute.{
  allocate, one_coin, execute_redistribute_funds, execute_emergency_pause, lp_precision, sum_bps,
  execute_receive, execute_withdraw_from_market, execute_collect_yield, execute_deposit,
  execute_add_market, execute_update_allocations, execute_process_withdrawal,
  execute_resume_operations, check_token, mint_lp, ExecuteMsg, execute, deposit, receive,
  request_withdrawal, redistribute_funds, collect_yield, process_withdrawal, withdraw_from_market,
  emergency_pause, resume_operations, update_allocations, add_market,
}
use levana_perps.Vault.State.{to_string, Vault, Message, Chain, Info}

abbrev Keeps : Result (Vault × List Message) → Type 0
Keeps r = Ensures (λ done. IsSound done.0) r

module _ ⦃c : Cosmwasm⦄ (doc : IsDocumented c) (e : Chain) (info : Info) (v : Vault) where
  execute_deposit-IsSound : IsSound v → Keeps (execute_deposit e info v)
  unfolding execute_deposit
  execute_deposit-IsSound s =
      let Q : Vault × List Message → Type 0 = λ done. IsSound done.0 in
      Ensures-then Q (check_not_paused v.config) _ λ _ _.
        Ensures-then Q (one_coin (to_string v.config.usdc_denom) info.funds) _ λ amount _.
          Ensures-then Q (get_total_assets e v) _ λ assets _.
            Ensures-then Q
              (if v.total_lp_supply == 0
                then ok amount
                else context (c.uint128_multiply_ratio amount v.total_lp_supply assets) panic)
              _
              λ lp _.
                Ensures-bind IsSound Q (mint_lp info.sender lp v) _
                  (mint_lp-IsSound doc info.sender lp v s) λ w sound. sound

  execute_receive-IsSound :
      (sender amount : ℕ) (msg : List ℕ)
      → IsSound v
      → Keeps (execute_receive e info sender amount msg v)
  unfolding execute_receive
  execute_receive-IsSound sender amount msg s =
      let Q : Vault × List Message → Type 0 = λ done. IsSound done.0 in
      Ensures-then Q (check_token v.config.usdc_denom info.sender) _ λ _ _.
        Ensures-then Q (check_not_paused v.config) _ λ _ _.
          Ensures-then Q (ensure (e.is_hook msg) failed) _ λ _ _.
            Ensures-then Q (context (e.addr_validate sender) msg_validation) _ λ addr _.
              Ensures-bind IsSound Q (mint_lp addr amount v) _ (mint_lp-IsSound doc addr amount v s)
                λ w sound. sound

  execute_redistribute_funds-IsSound : IsSound v → Keeps (execute_redistribute_funds e info v)
  unfolding execute_redistribute_funds
  execute_redistribute_funds-IsSound s =
      let Q : Vault × List Message → Type 0 = λ done. IsSound done.0 in
      Ensures-then Q (check_not_paused v.config) _ λ _ _.
        Ensures-then Q (ensure (v.config.governance == info.sender) auth) _ λ _ _.
          Ensures-then Q (asset_balance e v.config.usdc_denom) _ λ held _.
            Ensures-then Q
              (ensure (not (c.uint128_saturating_sub held v.total_pending_withdrawals == 0)) failed)
              _
              λ _ _. Ensures-then Q (sum_bps 0 v.config.markets_allocation_bps) _ λ total _.
                Ensures-then Q (ensure (not (total == 0)) failed) _ λ _ _.
                  Ensures-then Q (ensure (not (ltb 10000 total)) failed) _ λ _ _.
                    Ensures-then Q
                      (allocate v.config.usdc_denom
                        (c.uint128_saturating_sub held v.total_pending_withdrawals) total
                        v.config.markets_allocation_bps
                        (c.uint128_saturating_sub held v.total_pending_withdrawals)
                        v.market_allocations)
                      _ λ done _. configured-IsSound v.config done.1.0 v s

  execute_process_withdrawal-IsSound : IsSound v → Keeps (execute_process_withdrawal e v)
  unfolding execute_process_withdrawal
  execute_process_withdrawal-IsSound s = elim (Bool-cases v.config.paused) [
    | inl halted ↦ rw halted tt
    | inr running ↦ elim (Option-cases (e.query_balance (to_string v.config.usdc_denom))) [
      | inl silent ↦ Ensures-then _ (ensure (not v.config.paused) failed) _ λ _ _. rw silent tt
      | inr (held, answer) ↦
          let done = execute_process_withdrawal_lem doc e v held s running answer in
          rw done.2 done.4
    ]
  ]

  execute_withdraw_from_market-IsSound :
      (market amount : ℕ) → IsSound v → Keeps (execute_withdraw_from_market info market amount v)
  unfolding execute_withdraw_from_market
  execute_withdraw_from_market-IsSound market amount s =
      let Q : Vault × List Message → Type 0 = λ done. IsSound done.0 in
      let here = context (may_load market v.market_allocations) not_found in
      Ensures-then Q (check_not_paused v.config) _ λ _ _.
        Ensures-then Q (ensure (v.config.governance == info.sender) auth) _ λ _ _.
          Ensures-then Q here _ λ current _.
            Ensures-then Q (ensure (not (ltb current amount)) failed) _ λ _ _.
              Ensures-then Q (context (c.dec_from_atomics amount lp_precision) panic) _ λ lp _.
                Ensures-then Q (context (non_zero lp) failed) _ λ asked _.
                  Ensures-then Q
                    (context
                      (c.uint128_sub (unwrap_or (may_load market v.market_allocations) 0) amount)
                      panic)
                    _
                    λ left _.
                      configured-IsSound v.config (save market left v.market_allocations) v s

  message-IsSound : (msg : ExecuteMsg) → IsSound v → Keeps (execute e info msg v)
  unfolding execute execute_collect_yield execute_emergency_pause execute_resume_operations
      execute_update_allocations execute_add_market
  message-IsSound deposit s = execute_deposit-IsSound s
  message-IsSound (receive sender amount msg) s = execute_receive-IsSound sender amount msg s
  message-IsSound (request_withdrawal amount) s = request-IsSound doc info amount v s
  message-IsSound redistribute_funds s = execute_redistribute_funds-IsSound s
  message-IsSound collect_yield s =
      Ensures-then _ (check_not_paused v.config) _
        λ _ _. Ensures-then _ (ensure (v.config.governance == info.sender) auth) _ λ _ _. s
  message-IsSound process_withdrawal s = execute_process_withdrawal-IsSound s
  message-IsSound (withdraw_from_market market amount) s =
      execute_withdraw_from_market-IsSound market amount s
  message-IsSound emergency_pause s =
      Ensures-then _ (ensure (info.sender == v.config.governance) auth) _
        λ _ _. configured-IsSound (record v.config { paused = true }) v.market_allocations v s
  message-IsSound resume_operations s =
      Ensures-then _ (ensure (info.sender == v.config.governance) auth) _
        λ _ _. configured-IsSound (record v.config { paused = false }) v.market_allocations v s
  message-IsSound (update_allocations news) s =
      Ensures-then _ (ensure (info.sender == v.config.governance) auth) _ λ _ _.
        Ensures-then _ (ensure (size news == size v.market_allocations) failed) _ λ _ _.
          Ensures-then _ (sum_bps 0 news) _ λ total _.
            Ensures-then _ (ensure (not (total == 0)) failed) _ λ _ _.
              Ensures-then _ (ensure (not (ltb 10000 total)) failed) _ λ _ _.
                configured-IsSound (record v.config { markets_allocation_bps = news })
                  v.market_allocations v s
  message-IsSound (add_market market) s =
      Ensures-then _ (ensure (info.sender == v.config.governance) auth) _ λ _ _.
        Ensures-then _ (context (e.addr_validate market) msg_validation) _
          λ addr _. configured-IsSound v.config (save addr 0 v.market_allocations) v s

  -- In a vault whose books are in order (the shares add up to their supply, the requests of the queue
  -- to the pending withdrawals, the keys of the queue grow below the next one, and each request is
  -- marked as its user's alone), they are in order after every message that succeeds.
  pub execute_vault-IsSound :
      (msg : ExecuteMsg) {done : Vault × List Message}
      → IsSound v
      → execute e info msg v ≡ ok done
      → IsSound done.0
  execute_vault-IsSound msg s h =
      Ensures-ok (λ done. IsSound done.0) (execute e info msg v) (message-IsSound msg s) h
