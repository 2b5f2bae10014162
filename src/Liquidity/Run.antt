-- ===== src/Liquidity/Run.antt =====
-- The calls that reach the pool: the messages of a liquidity provider, dispatched by `execute` of
-- contracts/market/src/contract.rs, and the calls of positions and of the crank. A call that fails
-- leaves the pool as it was, since the chain drops its writes.
use levana_perps.Cosmwasm.{Cosmwasm}
use levana_perps.Liquidity.Locking.{
  update_locked_stats, apply_stats, add_lp_crank_rewards, unlock_stats, process_new_yield,
  lock_stats,
}
use levana_perps.Liquidity.Keeping.{collect_unstaked_lp}
use levana_perps.Liquidity.State.{Env, Pool, no_liquidity}
use levana_perps.Liquidity.Provider.{
  liquidity_withdraw, reinvest_yield, liquidity_claim_yield, liquidity_deposit,
}
use levana_perps.Liquidity.Staking.{
  liquidity_stop_unstaking_xlp, liquidity_stake_lp, liquidity_unstake_xlp,
}
use levana_perps.Number.Signed.{Signed}
use levana_perps.Prelude.{
  not, ◌&&◌, some, Result, ◌>>◌, err, ◌>>=◌, ok, ensure, failed, ℕ, Bool, true, false, Option, none,
  List, [], ◌∷◌,
}

pub data Call : Type 0 where
  deposit_liquidity : ℕ → Bool → Call
  reinvest : Option ℕ → Bool → Call
  withdraw_liquidity : Option ℕ → Bool → Call
  claim stop_unstaking_xlp collect_unstaked : Call
  stake unstake : Option ℕ → Call
  lock : ℕ → Option Signed → Option Signed → Call
  unlock : ℕ → Call
  update_locked : Signed → Call
  new_yield : ℕ → ℕ → Call
  crank_reward : ℕ → Call

-- Of the messages, all that touch the liquidity; the calls of positions and of the crank are made
-- within a message that was checked.
touches_liquidity : Call → Bool
touches_liquidity (lock _ _ _) = false
touches_liquidity (unlock _) = false
touches_liquidity (update_locked _) = false
touches_liquidity (new_yield _ _) = false
touches_liquidity (crank_reward _) = false
touches_liquidity _ = true

unfoldable pub should_reset_lp_balances : Pool → Bool
should_reset_lp_balances p = elim p.reset [ none ↦ false | some _ ↦ true ]

unfoldable pub ensure_not_resetting_lps : Call → Pool → Result (Unit {0})
unfolding touches_liquidity should_reset_lp_balances
ensure_not_resetting_lps call p =
    ensure (not (touches_liquidity call && should_reset_lp_balances p)) failed

module _ ⦃c : Cosmwasm⦄ where
  unfoldable pub claim_first : Bool → Env → ℕ → Pool → Result Pool
  unfolding liquidity_claim_yield
  claim_first true e addr p = liquidity_claim_yield e addr true p >>= λ r. ok r.1
  claim_first false e addr p = ok p

  unfoldable pub dispatch : Env → ℕ → Call → Pool → Result Pool
  unfolding liquidity_deposit reinvest_yield claim_first liquidity_withdraw liquidity_claim_yield
      liquidity_stop_unstaking_xlp collect_unstaked_lp liquidity_stake_lp liquidity_unstake_xlp
      lock_stats unlock_stats update_locked_stats apply_stats process_new_yield add_lp_crank_rewards
  dispatch e addr (deposit_liquidity amount stakes) p = liquidity_deposit e addr amount stakes p
  dispatch e addr (reinvest o stakes) p = reinvest_yield e addr o stakes p
  dispatch e addr (withdraw_liquidity o claims) p =
      claim_first claims e addr p >>= λ p1. liquidity_withdraw e addr o p1
  dispatch e addr claim p = claim_first true e addr p
  dispatch e addr stop_unstaking_xlp p =
      liquidity_stop_unstaking_xlp e addr true true p >>= λ r. ok r.1
  dispatch e addr collect_unstaked p =
      collect_unstaked_lp e addr p >>= λ r. ensure r.0 failed >> ok r.1
  dispatch e addr (stake o) p = liquidity_stake_lp e addr o p
  dispatch e addr (unstake o) p = liquidity_unstake_xlp e addr o p
  dispatch e addr (lock amount delta override) p =
      lock_stats e amount delta override p.stats >>= λ s. apply_stats e s p
  dispatch e addr (unlock amount) p = unlock_stats amount p.stats >>= λ s. apply_stats e s p
  dispatch e addr (update_locked amount) p =
      update_locked_stats amount p.stats >>= λ s. apply_stats e s p
  dispatch e addr (new_yield lp xlp) p = process_new_yield lp xlp p
  dispatch e addr (crank_reward amount) p = add_lp_crank_rewards addr amount p

  -- A message that touches the liquidity is refused during a reset, before it is dispatched.
  unfoldable pub perform : Env → ℕ → Call → Pool → Result Pool
  unfolding ensure_not_resetting_lps dispatch
  perform e addr call p = ensure_not_resetting_lps call p >> dispatch e addr call p

  -- A call at its time and prices, which is dropped where it fails.
  unfoldable pub step : Env × ℕ × Call → Pool → Pool
  unfolding perform
  step (e, addr, call) p = elim (perform e addr call (record p { transfers = [] })) [
    | ok q ↦ q
    | err _ ↦ p
  ]

  unfoldable pub run : List (Env × ℕ × Call) → Pool → Pool
  unfolding step
  run [] p = p
  run (call ∷ rest) p = run rest (step call p)

-- `liquidity_init` and `yield_init`: no tokens, and the yields start at 0.
abbrev pub empty_pool : Pool
empty_pool = record {
  stats = no_liquidity;
  by_addr = [];
  yields = (0, record { lp = 0; xlp = 0 }) ∷ [];
  reset = none;
  fees = record { wallets = 0; protocol = 0; crank = 0; referral = 0 };
  history = [];
  summaries = [];
  transfers = [];
}
