-- ===== src/Vault/Execute.antt =====
-- The handlers of contracts/vault/src/execute.rs. A handler returns the new storage and the messages
-- that it sends; on an error the chain drops whatever it wrote.
use levana_perps.Prelude.Dict.{size}
use levana_perps.Cosmwasm.{Cosmwasm}
use levana_perps.Vault.State.{
  deposit_liquidity, withdraw_liquidity, UsdcAsset, save_request, Vault, market_claim_yield, Info,
  Message, WithdrawalRequest, Coin, lp_balance, cw20_transfer, bank_send, to_string, native, mark,
  Chain, cw20,
}
use levana_perps.Number.NonZero.{non_zero}
use levana_perps.Prelude.{
  unwrap_or, ltb, ◌==◌, if◌then◌else◌, auth, Result, err, ◌>>◌, failed, context, ok, panic, ensure,
  underflow, msg_validation, overflow, ◌>>=◌, not_found, ℕ, zero, suc, ◌+◌, ◌^◌, true, false, not,
  List, [], ◌∷◌, ◌++◌,
}
use levana_perps.Prelude.Dict.{Dict, may_load, remove, save}
use levana_perps.Vault.Common.{
  get_total_assets, asset_balance, get_and_increment_queue_id, check_not_paused,
}
use levana_perps.Cw20.State.{balance}

-- `ExecuteMsg`.
pub data ExecuteMsg : Type 0 where
  deposit : ExecuteMsg
  receive : (sender amount : ℕ) (msg : List ℕ) → ExecuteMsg
  request_withdrawal : (amount : ℕ) → ExecuteMsg
  redistribute_funds : ExecuteMsg
  collect_yield : ExecuteMsg
  process_withdrawal : ExecuteMsg
  withdraw_from_market : (market amount : ℕ) → ExecuteMsg
  emergency_pause : ExecuteMsg
  resume_operations : ExecuteMsg
  update_allocations : (new_allocations : Dict ℕ) → ExecuteMsg
  add_market : (market : ℕ) → ExecuteMsg

-- `info.funds` with exactly one coin, of the denomination.
unfoldable pub one_coin : ℕ → List Coin → Result ℕ
one_coin denom [] = err failed
one_coin denom (a ∷ []) = if a.denom == denom then ok a.amount else err failed
one_coin denom (a ∷ b ∷ rest) = err failed

abbrev pub u16_modulus : ℕ
u16_modulus = 2 ^ 16

-- `values().sum()` of `u16`, which panics on an overflow, as the release profile checks overflows.
unfoldable pub sum_bps : ℕ → Dict ℕ → Result ℕ
sum_bps acc [] = ok acc
sum_bps acc ((market, bps) ∷ rest) =
    if ltb (acc + bps) u16_modulus then sum_bps (acc + bps) rest else err panic

-- The amount of the messages that a withdrawal sends, in the order of the queue.
unfoldable pub payments : ℕ → Dict WithdrawalRequest → List Message
payments denom [] = []
payments denom ((id, r) ∷ rest) = bank_send r.user denom r.amount ∷ payments denom rest

-- The loop over the processed entries.
unfoldable pub remove_processed : Dict WithdrawalRequest → Vault → Vault
remove_processed [] v = v
remove_processed ((id, r) ∷ rest) v = remove_processed rest (record v {
  withdrawal_queue = remove id v.withdrawal_queue;
  user_withdrawals = mark r.user id false v.user_withdrawals;
})

unfoldable pub claim_messages : Dict ℕ → List Message
claim_messages [] = []
claim_messages ((market, amount) ∷ rest) = market_claim_yield market ∷ claim_messages rest

-- `LpToken::PRECISION`.
abbrev pub lp_precision : ℕ
lp_precision = 6

-- The message that sends what remains to the governance.
unfoldable pub send_rest : UsdcAsset → ℕ → ℕ → List Message
send_rest (cw20 addr) governance amount = cw20_transfer addr governance amount ∷ []
send_rest (native denom) governance amount = bank_send governance denom amount ∷ []

-- The test of the token that calls.
unfoldable pub check_token : UsdcAsset → ℕ → Result (Unit {0})
check_token (cw20 addr) sender = ensure (sender == addr) failed
check_token (native denom) sender = err failed

module _ ⦃c : Cosmwasm⦄ where
  -- `LP_BALANCES.update` and `TOTAL_LP_SUPPLY.update` with the closures that add by `+`.
  unfoldable pub mint_lp : ℕ → ℕ → Vault → Result Vault
  mint_lp user lp_amount v = do
    balance ← context (c.uint128_add (lp_balance v user) lp_amount) panic
    supply ← context (c.uint128_add v.total_lp_supply lp_amount) panic
    ok (record v { lp_balances = save user balance v.lp_balances; total_lp_supply = supply })

  unfoldable pub execute_deposit : Chain → Info → Vault → Result (Vault × List Message)
  unfolding check_not_paused one_coin get_total_assets mint_lp
  execute_deposit e info v = do
    check_not_paused v.config
    amount ← one_coin (to_string v.config.usdc_denom) info.funds
    total_assets ← get_total_assets e v
    lp_amount ←
        (if v.total_lp_supply == 0
          then ok amount
          else context (c.uint128_multiply_ratio amount v.total_lp_supply total_assets) panic)
    v1 ← mint_lp info.sender lp_amount v
    ok (v1, [])

  unfoldable pub execute_receive :
      Chain → Info → ℕ → ℕ → List ℕ → Vault → Result (Vault × List Message)
  unfolding check_token check_not_paused mint_lp
  execute_receive e info sender amount msg v = do
    check_token v.config.usdc_denom info.sender
    check_not_paused v.config
    ensure (e.is_hook msg) failed
    sender_addr ← context (e.addr_validate sender) msg_validation
    v1 ← mint_lp sender_addr amount v
    ok (v1, [])

  unfoldable pub execute_request_withdrawal : Info → ℕ → Vault → Result (Vault × List Message)
  unfolding check_not_paused get_and_increment_queue_id save_request
  execute_request_withdrawal info amount v = do
    check_not_paused v.config
    left ← context (c.uint128_checked_sub (lp_balance v info.sender) amount) underflow
    let v1 = record v { lp_balances = save info.sender left v.lp_balances }
    entry ← get_and_increment_queue_id v1
    let id = entry.0
    let v2 = entry.1
    ensure (not (amount == 0)) failed
    pending ← context (c.uint128_checked_add v2.total_pending_withdrawals amount) overflow
    supply ← context (c.uint128_checked_sub v2.total_lp_supply amount) underflow
    let request : WithdrawalRequest = record { user = info.sender; amount = amount }
    ok (
      record v2 {
        withdrawal_queue = save_request id request v2.withdrawal_queue;
        user_withdrawals = mark info.sender id true v2.user_withdrawals;
        total_pending_withdrawals = pending;
        total_lp_supply = supply;
      },
      [],
    )

  -- `MARKET_ALLOCATIONS.update` of a message that is sent.
  unfoldable pub allot : ℕ → ℕ → Dict ℕ → Result (Dict ℕ)
  allot market amount allocations =
      if amount == 0
      then ok allocations
      else (context (c.uint128_add (unwrap_or (may_load market allocations) 0) amount) panic
          >>= λ more. ok (save market more allocations))

  -- The loop over the allocations: the messages, the allocations written and what remains.
  unfoldable pub allocate :
      UsdcAsset → ℕ → ℕ → Dict ℕ → ℕ → Dict ℕ → Result (List Message × (Dict ℕ × ℕ))
  unfolding allot
  allocate asset excess total_bps [] remaining allocations = ok ([], (allocations, remaining))
  allocate asset excess total_bps ((market, bps) ∷ rest) remaining allocations = do
    amount ← context (c.uint128_multiply_ratio excess bps total_bps) panic
    written ← allot market amount allocations
    let left = if amount == 0 then remaining else c.uint128_saturating_sub remaining amount
    done ← allocate asset excess total_bps rest left written
    let sent = if amount == 0 then done.0 else deposit_liquidity asset market amount ∷ done.0
    ok (sent, done.1)

  unfoldable pub execute_redistribute_funds : Chain → Info → Vault → Result (Vault × List Message)
  unfolding check_not_paused asset_balance sum_bps allocate send_rest
  execute_redistribute_funds e info v = do
    check_not_paused v.config
    ensure (v.config.governance == info.sender) auth
    vault_balance ← asset_balance e v.config.usdc_denom
    let excess = c.uint128_saturating_sub vault_balance v.total_pending_withdrawals
    ensure (not (excess == 0)) failed
    total_bps ← sum_bps 0 v.config.markets_allocation_bps
    ensure (not (total_bps == 0)) failed
    ensure (not (ltb 10000 total_bps)) failed
    done ←
        allocate v.config.usdc_denom excess total_bps v.config.markets_allocation_bps excess
          v.market_allocations
    let remaining = done.1.1
    let last =
        if remaining == 0 then [] else send_rest v.config.usdc_denom v.config.governance remaining
    ok (record v { market_allocations = done.1.0 }, done.0 ++ last)

  -- The messages are in the order in which the markets were added.
  unfoldable pub execute_collect_yield : Info → Vault → Result (Vault × List Message)
  unfolding check_not_paused claim_messages
  execute_collect_yield info v = do
    check_not_paused v.config
    ensure (v.config.governance == info.sender) auth
    ok (v, claim_messages v.market_allocations)

  -- The loop over the first entries of the queue: the processed amount and the processed entries.
  unfoldable pub take_fitting :
      ℕ → ℕ → ℕ → Dict WithdrawalRequest → Result (ℕ × Dict WithdrawalRequest)
  take_fitting zero vault_balance processed queue = ok (processed, [])
  take_fitting (suc n) vault_balance processed [] = ok (processed, [])
  take_fitting (suc n) vault_balance processed ((id, r) ∷ queue) = do
    new_total ← context (c.uint128_add processed r.amount) panic
    let rest = take_fitting n vault_balance new_total queue
    if ltb vault_balance new_total
        then ok (processed, [])
        else (rest >>= λ done. ok (done.0, (id, r) ∷ done.1))

  -- The subtraction from the pending withdrawals.
  unfoldable pub settle_pending : ℕ → Vault → Result Vault
  settle_pending processed v =
      if processed == 0
      then ok v
      else (context (c.uint128_checked_sub v.total_pending_withdrawals processed) underflow
          >>= λ total. ok (record v { total_pending_withdrawals = total }))

  unfoldable pub execute_process_withdrawal : Chain → Vault → Result (Vault × List Message)
  unfolding take_fitting remove_processed settle_pending payments
  execute_process_withdrawal e v = do
    ensure (not v.config.paused) failed
    let denom = to_string v.config.usdc_denom
    vault_balance ← context (e.query_balance denom) failed
    done ← take_fitting 20 vault_balance 0 v.withdrawal_queue
    v1 ← settle_pending done.0 (remove_processed done.1 v)
    ok (v1, payments denom done.1)

  unfoldable pub execute_withdraw_from_market : Info → ℕ → ℕ → Vault → Result (Vault × List Message)
  unfolding check_not_paused non_zero
  execute_withdraw_from_market info market amount v = do
    check_not_paused v.config
    ensure (v.config.governance == info.sender) auth
    current_allocation ← context (may_load market v.market_allocations) not_found
    ensure (not (ltb current_allocation amount)) failed
    lp_amount ← context (c.dec_from_atomics amount lp_precision) panic
    asked ← context (non_zero lp_amount) failed
    left ← context (c.uint128_sub (unwrap_or (may_load market v.market_allocations) 0) amount) panic
    ok (
      record v { market_allocations = save market left v.market_allocations },
      withdraw_liquidity market asked ∷ [],
    )

  unfoldable pub execute_emergency_pause : Info → Vault → Result (Vault × List Message)
  execute_emergency_pause info v = do
    ensure (info.sender == v.config.governance) auth
    ok (record v { config = record v.config { paused = true } }, [])

  unfoldable pub execute_resume_operations : Info → Vault → Result (Vault × List Message)
  execute_resume_operations info v = do
    ensure (info.sender == v.config.governance) auth
    ok (record v { config = record v.config { paused = false } }, [])

  unfoldable pub execute_update_allocations : Info → Dict ℕ → Vault → Result (Vault × List Message)
  unfolding sum_bps
  execute_update_allocations info new_allocations v = do
    ensure (info.sender == v.config.governance) auth
    ensure (size new_allocations == size v.market_allocations) failed
    total_bps ← sum_bps 0 new_allocations
    ensure (not (total_bps == 0)) failed
    ensure (not (ltb 10000 total_bps)) failed
    ok (record v { config = record v.config { markets_allocation_bps = new_allocations } }, [])

  unfoldable pub execute_add_market : Chain → Info → ℕ → Vault → Result (Vault × List Message)
  execute_add_market e info market v = do
    ensure (info.sender == v.config.governance) auth
    market_addr ← context (e.addr_validate market) msg_validation
    ok (record v { market_allocations = save market_addr 0 v.market_allocations }, [])

  unfoldable pub execute : Chain → Info → ExecuteMsg → Vault → Result (Vault × List Message)
  unfolding execute_deposit execute_receive execute_request_withdrawal execute_redistribute_funds
      execute_collect_yield execute_process_withdrawal execute_withdraw_from_market
      execute_emergency_pause execute_resume_operations execute_update_allocations
      execute_add_market
  execute e info deposit v = execute_deposit e info v
  execute e info (receive sender amount msg) v = execute_receive e info sender amount msg v
  execute e info (request_withdrawal amount) v = execute_request_withdrawal info amount v
  execute e info redistribute_funds v = execute_redistribute_funds e info v
  execute e info collect_yield v = execute_collect_yield info v
  execute e info process_withdrawal v = execute_process_withdrawal e v
  execute e info (withdraw_from_market market amount) v =
      execute_withdraw_from_market info market amount v
  execute e info emergency_pause v = execute_emergency_pause info v
  execute e info resume_operations v = execute_resume_operations info v
  execute e info (update_allocations new_allocations) v =
      execute_update_allocations info new_allocations v
  execute e info (add_market market) v = execute_add_market e info market v
