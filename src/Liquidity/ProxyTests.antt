-- ===== src/Liquidity/ProxyTests.antt =====
-- Transfers of LP and xLP tokens through the proxies at concrete values.
use levana_perps.Cosmwasm.{one, documented}
use levana_perps.Liquidity.Run.{empty_pool}
use levana_perps.Liquidity.Proxy.{
  liquidity_token_handle_exec, transfer_tokens_from, Tokens, ProxyEnv, Allowances, transfer_tokens,
  lp_kind,
}
use levana_perps.Prelude.{
  leb, err, auth, cw20_funds, Error, ok, ℕ, ◌*◌, ◌^◌, ◌≡◌, refl, Option, none, some, List, [], ◌∷◌,
}
use levana_perps.Prelude.Dict.{Dict}
use levana_perps.Cw20.State.{transfer_event, Output}
use levana_perps.Liquidity.State.{Pool, unlimited, new_addr_stats, AddrStats}

-- An expiration is a time in seconds here, and the block is at 50.
abbrev proxy_env : ProxyEnv ℕ
proxy_env = record {
  market = record {
    now = 0;
    price_notional = one;
    price_usd = 2 * one;
    open_long = 0;
    open_short = 0;
    carry_leverage = 10 * one;
    max_liquidity = unlimited;
    liquidity_cooldown_seconds = 0;
    unstake_period_seconds = 100;
  };
  validate = λ raw. some raw;
  is_expired = λ x. leb x 50;
  never = 1000;
}

abbrev no_allowances : Allowances ℕ
no_allowances = record { by_owner = λ a b. none; by_spender = λ a b. none }

abbrev provider : ℕ → Option ℕ → AddrStats
provider lp ends = record (new_addr_stats 0) { lp = lp; cooldown_ends = ends }

abbrev pool_of : Dict AddrStats → Pool
pool_of entries = record empty_pool {
  stats = record { locked = 0; unlocked = 5 * one; total_lp = 5 * one; total_xlp = 0 };
  by_addr = entries;
}

abbrev tokens_of : Dict AddrStats → List (Output ℕ) → Tokens ℕ
tokens_of entries response = record {
  pool = pool_of entries;
  of_lp = no_allowances;
  of_xlp = no_allowances;
  response = response;
}

abbrev holding : Tokens ℕ
holding = tokens_of ((3, provider (5 * one) none) ∷ []) []

abbrev cooling : Tokens ℕ
cooling = tokens_of ((3, provider (5 * one) (some 10)) ∷ []) []

-- Two tokens with 6 digits move.
transfer_run :
    liquidity_token_handle_exec ⦃c = documented⦄ proxy_env 3 lp_kind
      (transfer_tokens 7 (2 * 10 ^ 6))
      holding
    ≡ ok (
        tokens_of
          ((3, provider (3 * one) none) ∷ (7, provider (2 * one) none) ∷ [])
          (transfer_event 3 7 (2 * 10 ^ 6) none ∷ []))
unfolding liquidity_token_handle_exec
transfer_run = refl

-- A transfer to oneself changes nothing.
own_run :
    liquidity_token_handle_exec ⦃c = documented⦄ proxy_env 3 lp_kind
      (transfer_tokens 3 (2 * 10 ^ 6))
      holding
    ≡ ok (tokens_of ((3, provider (5 * one) none) ∷ []) (transfer_event 3 3 (2 * 10 ^ 6) none ∷ []))
unfolding liquidity_token_handle_exec
own_run = refl

too_much_run :
    liquidity_token_handle_exec ⦃c = documented⦄ proxy_env 3 lp_kind
      (transfer_tokens 7 (6 * 10 ^ 6))
      holding
    ≡ err cw20_funds
unfolding liquidity_token_handle_exec
too_much_run = refl

cooldown_run :
    liquidity_token_handle_exec ⦃c = documented⦄ proxy_env 3 lp_kind
      (transfer_tokens 7 (2 * 10 ^ 6))
      cooling
    ≡ err Error.liquidity_cooldown
unfolding liquidity_token_handle_exec
cooldown_run = refl

no_allowance_run :
    liquidity_token_handle_exec ⦃c = documented⦄ proxy_env 7 lp_kind
      (transfer_tokens_from 3 7 (2 * 10 ^ 6))
      holding
    ≡ err auth
unfolding liquidity_token_handle_exec
no_allowance_run = refl
