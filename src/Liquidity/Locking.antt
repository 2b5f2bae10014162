-- ===== src/Liquidity/Locking.antt =====
-- What positions and the crank do to the pool, in contracts/market/src/state/liquidity.rs: locking and
-- unlocking of collateral, gains and losses of what is locked, new yield, and rewards. The lock,
-- unlock and update structs are made from the stored totals and applied at once.
use levana_perps.Cosmwasm.{below, Cosmwasm}
use levana_perps.Liquidity.State.{Pool, LiquidityStats, Env}
use levana_perps.Liquidity.Provider.{min_unlocked_liquidity}
use levana_perps.Liquidity.Storage.{
  load_addr_default, save_stats, pool_size_events, latest_yield, net_notional, save_addr,
  save_yield,
}
use levana_perps.Number.Signed.{try_into_non_negative_value, new_positive, signed_add, Signed}
use levana_perps.Number.Unsigned.{checked_add, checked_sub, div_non_zero}
use levana_perps.Prelude.{
  leb, unwrap_or, ◌==◌, if◌then◌else◌, ◌>>=◌, Result, ensure, insufficient_liquidity, context, ok,
  panic, failed, ◌>>◌, ℕ, ◌+◌, ◌^◌, Option, none, some,
}
use levana_perps.Prelude.Dict.{sum}

module _ ⦃c : Cosmwasm⦄ where
  -- `LiquidityUnlock::new`.
  unfoldable pub unlock_stats : ℕ → LiquidityStats → Result LiquidityStats
  unfolding checked_sub checked_add
  unlock_stats amount s = do
    ensure (leb amount s.locked) insufficient_liquidity
    locked ← checked_sub s.locked amount
    unlocked ← checked_add s.unlocked amount
    ok (record s { locked = locked; unlocked = unlocked })

  -- The net notional that the lock is checked against.
  unfoldable pub net_or : Env → Option Signed → Result Signed
  unfolding net_notional
  net_or e (some n) = ok n
  net_or e none = net_notional e

  -- `LiquidityLock::new`: at least `min_unlocked_liquidity` stays unlocked.
  unfoldable pub lock_stats :
      Env → ℕ → Option Signed → Option Signed → LiquidityStats → Result LiquidityStats
  unfolding net_or signed_add min_unlocked_liquidity checked_add checked_sub
  lock_stats e amount delta_notional net_notional_override s = do
    net ← net_or e net_notional_override
    changed ← signed_add net (unwrap_or delta_notional (new_positive 0))
    min_unlocked ← min_unlocked_liquidity e changed
    needed ← checked_add min_unlocked amount
    ensure (leb needed s.unlocked) insufficient_liquidity
    locked ← checked_add s.locked amount
    unlocked ← checked_sub s.unlocked amount
    ok (record s { locked = locked; unlocked = unlocked })

  -- `LiquidityUpdateLocked::new`.
  unfoldable pub update_locked_stats : Signed → LiquidityStats → Result LiquidityStats
  unfolding signed_add
  update_locked_stats amount s = do
    sum ← signed_add (new_positive s.locked) amount
    locked ← context (try_into_non_negative_value sum) failed
    ok (record s { locked = locked })

  -- `apply` of each of the three.
  unfoldable pub apply_stats : Env → LiquidityStats → Pool → Result Pool
  unfolding save_stats pool_size_events
  apply_stats e s p = do p1 ← save_stats s p; pool_size_events e s; ok p1

  -- The yield of one token: nothing where there are no tokens.
  unfoldable pub yield_per_token : ℕ → ℕ → Result ℕ
  unfolding div_non_zero
  yield_per_token amount total = if total == 0 then ok 0 else div_non_zero amount total

  -- `liquidity_process_new_yield` and `LiquidityNewYieldToProcess::apply`.
  unfoldable pub process_new_yield : ℕ → ℕ → Pool → Result Pool
  unfolding yield_per_token latest_yield checked_add save_yield
  process_new_yield lp_amount xlp_amount p = do
    lp ← yield_per_token lp_amount p.stats.total_lp
    xlp ← yield_per_token xlp_amount p.stats.total_xlp
    (last_index, last_yield) ← latest_yield p
    lp_sum ← checked_add last_yield.lp lp
    xlp_sum ← checked_add last_yield.xlp xlp
    next_index ← context (below (2 ^ 64) (last_index + 1)) panic
    ok (record p {
      yields = save_yield next_index (record { lp = lp_sum; xlp = xlp_sum }) p.yields;
    })

  unfoldable pub add_lp_crank_rewards : ℕ → ℕ → Pool → Result Pool
  unfolding load_addr_default checked_add save_addr
  add_lp_crank_rewards addr amount p = do
    a ← load_addr_default addr p
    rewards ← checked_add a.crank_rewards amount
    ok (save_addr addr (record a { crank_rewards = rewards }) p)
