-- ===== src/Liquidity/RunBooks.antt =====
-- The books of the pool under the calls of positions and of the crank, and under sequences of calls, in
-- contracts/market/src/state/liquidity.rs.
use levana_perps.Cosmwasm.{Cosmwasm, below, IsDocumented}
use levana_perps.Liquidity.Working.{Wrote, save_stats-Wrote, Wrote-IsBooked}
use levana_perps.Liquidity.Locking.{
  net_or, unlock_stats, lock_stats, add_lp_crank_rewards, process_new_yield, apply_stats,
  yield_per_token, update_locked_stats,
}
use levana_perps.Liquidity.StakingBooks.{
  NonZeroIfGiven, liquidity_stop_unstaking_xlp-IsBooked, liquidity_unstake_xlp-IsBooked,
  liquidity_stake_lp-IsBooked,
}
use levana_perps.Liquidity.Keeping.{collect_unstaked_lp}
use levana_perps.Liquidity.Books.{frame-IsBooked, IsBooked}
use levana_perps.Liquidity.State.{Env, LiquidityStats, Pool}
use levana_perps.Liquidity.Provider.{liquidity_claim_yield, min_unlocked_liquidity}
use levana_perps.Liquidity.Run.{
  dispatch, ensure_not_resetting_lps, deposit_liquidity, Call, claim, perform, reinvest,
  withdraw_liquidity, unstake, unlock, stake, update_locked, claim_first, crank_reward, step, lock,
  run, empty_pool, new_yield, collect_unstaked, stop_unstaking_xlp,
}
use levana_perps.Liquidity.DepositBooks.{
  liquidity_claim_yield-IsBooked, reinvest_yield-IsBooked, liquidity_deposit-IsBooked,
}
use levana_perps.Liquidity.KeepsBooks.{
  load_addr_default_ok, collect_unstaked_lp-SameTotals, same_entry, SameTotals,
}
use levana_perps.Liquidity.WithdrawBooks.{liquidity_withdraw-IsBooked, SameTokens}
use levana_perps.Liquidity.Storage.{save_stats, load_addr_default, pool_size_events, latest_yield}
use levana_perps.Liquidity.Staking.{liquidity_stop_unstaking_xlp}
use levana_perps.Number.Signed.{signed_add, new_positive, try_into_non_negative_value, Signed}
use levana_perps.Number.Unsigned.{checked_add, checked_sub}
use levana_perps.Prelude.{
  unwrap_or, leb, panic, Result, failed, ok, context, Ensures, ◌>>=◌, err, insufficient_liquidity,
  ensure, Ensures-bind, Ensures-then, ℕ, ◌+◌, ◌^◌, refl, ◌∙◌, Bool, true, false, Option, List, [],
  ◌∷◌,
}

-- The amount that a message gives is not 0 where its type is `NonZero` and the code relies on it.
abbrev pub IsCall : Call → Type 0
IsCall (unstake o) = NonZeroIfGiven o
IsCall _ = Unit {0}

abbrev pub AreCalls : List (Env × ℕ × Call) → Type 0
AreCalls [] = Unit {0}
AreCalls ((e, addr, call) ∷ rest) = IsCall call × AreCalls rest

module _ ⦃c : Cosmwasm⦄ where
  -- Totals with the same tokens are written.
  apply_stats-IsBooked :
      (e : Env) (s : LiquidityStats) (p : Pool)
      → SameTokens p.stats s
      → IsBooked p
      → Ensures IsBooked (apply_stats e s p)
  unfolding apply_stats
  apply_stats-IsBooked e s p (lp, xlp) k =
      Ensures-bind (Wrote s p) IsBooked (save_stats s p) _ (save_stats-Wrote s p) λ q wrote.
        Ensures-then IsBooked (pool_size_events e s) _ λ _ _. Wrote-IsBooked s p q booked wrote
    where
      booked : IsBooked (record p { stats = s })
      booked = record {
        distinct = k.distinct;
        linear = k.linear;
        lp_total = λ idle. lp ∙ k.lp_total idle;
        xlp_total = λ idle. xlp ∙ k.xlp_total idle;
      }

  unlock_stats-SameTokens :
      (amount : ℕ) (s : LiquidityStats) → Ensures (SameTokens s) (unlock_stats amount s)
  unfolding unlock_stats
  unlock_stats-SameTokens amount s =
      Ensures-then (SameTokens s) (ensure (leb amount s.locked) insufficient_liquidity) _ λ _ _.
        Ensures-then (SameTokens s) (checked_sub s.locked amount) _
          λ _ _. Ensures-then (SameTokens s) (checked_add s.unlocked amount) _ λ _ _. (refl, refl)

  lock_stats-SameTokens :
      (e : Env) (amount : ℕ) (delta override : Option Signed) (s : LiquidityStats)
      → Ensures (SameTokens s) (lock_stats e amount delta override s)
  unfolding lock_stats
  lock_stats-SameTokens e amount delta override s =
      Ensures-then (SameTokens s) (net_or e override) _ λ net _.
        Ensures-then (SameTokens s) (signed_add net (unwrap_or delta (new_positive 0))) _
          λ changed _.
            Ensures-then (SameTokens s) (min_unlocked_liquidity e changed) _ λ min_unlocked _.
              Ensures-then (SameTokens s) (checked_add min_unlocked amount) _ λ needed _.
                Ensures-then (SameTokens s) (ensure (leb needed s.unlocked) insufficient_liquidity)
                  _
                  λ _ _. Ensures-then (SameTokens s) (checked_add s.locked amount) _ λ _ _.
                    Ensures-then (SameTokens s) (checked_sub s.unlocked amount) _
                      λ _ _. (refl, refl)

  update_locked_stats-SameTokens :
      (amount : Signed) (s : LiquidityStats) → Ensures (SameTokens s) (update_locked_stats amount s)
  unfolding update_locked_stats
  update_locked_stats-SameTokens amount s =
      Ensures-then (SameTokens s) (signed_add (new_positive s.locked) amount) _ λ total _.
        Ensures-then (SameTokens s) (context (try_into_non_negative_value total) failed) _
          λ _ _. (refl, refl)

  process_new_yield-IsBooked :
      (lp xlp : ℕ) (p : Pool) → IsBooked p → Ensures IsBooked (process_new_yield lp xlp p)
  unfolding process_new_yield
  process_new_yield-IsBooked lp xlp p k =
      Ensures-then IsBooked (yield_per_token lp p.stats.total_lp) _ λ _ _.
        Ensures-then IsBooked (yield_per_token xlp p.stats.total_xlp) _ λ _ _.
          Ensures-then IsBooked (latest_yield p) _ λ last _.
            Ensures-then IsBooked (checked_add last.1.lp _) _ λ _ _.
              Ensures-then IsBooked (checked_add last.1.xlp _) _ λ _ _.
                Ensures-then IsBooked (context (below (2 ^ 64) (last.0 + 1)) panic) _
                  λ _ _. frame-IsBooked p.fees _ p.history p.summaries p.transfers p k

  apply_all :
      (e : Env) (m : Result LiquidityStats) (p : Pool)
      → IsBooked p
      → Ensures (SameTokens p.stats) m
      → Ensures IsBooked (m >>= λ s. apply_stats e s p)
  apply_all e m p k same =
      Ensures-bind (SameTokens p.stats) IsBooked m _ same
        λ s tokens. apply_stats-IsBooked e s p tokens k

module _ ⦃c : Cosmwasm⦄ (doc : IsDocumented c) where
  add_lp_crank_rewards-IsBooked :
      (addr amount : ℕ) (p : Pool)
      → IsBooked p
      → Ensures IsBooked (add_lp_crank_rewards addr amount p)
  unfolding add_lp_crank_rewards
  add_lp_crank_rewards-IsBooked addr amount p k =
      Ensures-then IsBooked (load_addr_default addr p) _ λ a found.
        Ensures-then IsBooked (checked_add a.crank_rewards amount) _ λ rewards _.
          let l = load_addr_default_ok addr p found in
          (same_entry addr a (record a { crank_rewards = rewards }) p k l refl refl
            (l.2 (k.linear addr))).0

  claim_first-IsBooked :
      (claims : Bool) (e : Env) (addr : ℕ) (p : Pool)
      → IsBooked p
      → Ensures IsBooked (claim_first claims e addr p)
  unfolding claim_first
  claim_first-IsBooked true e addr p k =
      Ensures-bind (λ r. IsBooked r.1) IsBooked (liquidity_claim_yield e addr true p) _
        (liquidity_claim_yield-IsBooked doc e addr true p k) λ r k1. k1
  claim_first-IsBooked false e addr p k = k

  -- Each call keeps the books.
  dispatch-IsBooked :
      (e : Env) (addr : ℕ) (call : Call) (p : Pool)
      → IsCall call
      → IsBooked p
      → Ensures IsBooked (dispatch e addr call p)
  unfolding dispatch
  dispatch-IsBooked e addr (deposit_liquidity amount stakes) p _ k =
      liquidity_deposit-IsBooked doc e addr amount stakes p k
  dispatch-IsBooked e addr (reinvest o stakes) p _ k =
      reinvest_yield-IsBooked doc e addr o stakes p k
  dispatch-IsBooked e addr (withdraw_liquidity o claims) p _ k =
      Ensures-bind IsBooked IsBooked (claim_first claims e addr p) _
        (claim_first-IsBooked claims e addr p k)
        λ p1 k1. liquidity_withdraw-IsBooked doc e addr o p1 k1
  dispatch-IsBooked e addr claim p _ k = claim_first-IsBooked true e addr p k
  dispatch-IsBooked e addr stop_unstaking_xlp p _ k =
      Ensures-bind (λ r. IsBooked r.1) IsBooked (liquidity_stop_unstaking_xlp e addr true true p) _
        (liquidity_stop_unstaking_xlp-IsBooked doc e addr true p k) λ r k1. k1
  dispatch-IsBooked e addr collect_unstaked p _ k =
      Ensures-bind (λ r. SameTotals p.stats r.1) IsBooked (collect_unstaked_lp e addr p) _
        (collect_unstaked_lp-SameTotals doc e addr p k)
        λ r k1. Ensures-then IsBooked (ensure r.0 failed) _ λ _ _. k1.0
  dispatch-IsBooked e addr (stake o) p _ k = liquidity_stake_lp-IsBooked doc e addr o p k
  dispatch-IsBooked e addr (unstake o) p given k =
      liquidity_unstake_xlp-IsBooked doc e addr o p given k
  dispatch-IsBooked e addr (lock amount delta override) p _ k =
      apply_all e _ p k (lock_stats-SameTokens e amount delta override p.stats)
  dispatch-IsBooked e addr (unlock amount) p _ k =
      apply_all e _ p k (unlock_stats-SameTokens amount p.stats)
  dispatch-IsBooked e addr (update_locked amount) p _ k =
      apply_all e _ p k (update_locked_stats-SameTokens amount p.stats)
  dispatch-IsBooked e addr (new_yield lp xlp) p _ k = process_new_yield-IsBooked lp xlp p k
  dispatch-IsBooked e addr (crank_reward amount) p _ k =
      add_lp_crank_rewards-IsBooked addr amount p k

  perform-IsBooked :
      (e : Env) (addr : ℕ) (call : Call) (p : Pool)
      → IsCall call
      → IsBooked p
      → Ensures IsBooked (perform e addr call p)
  unfolding perform
  perform-IsBooked e addr call p is_call k =
      Ensures-then IsBooked (ensure_not_resetting_lps call p) _
        λ _ _. dispatch-IsBooked e addr call p is_call k

  kept_or_dropped :
      (r : Result Pool) (p : Pool)
      → IsBooked p
      → Ensures IsBooked r
      → IsBooked (elim r [ ok q ↦ q | err _ ↦ p ])
  kept_or_dropped (ok q) p k kept = kept
  kept_or_dropped (err _) p k kept = k

  -- From a pool whose books are in order, every sequence of calls leads to one, also where some of
  -- the calls fail, provided that an amount to unstake is not 0. In order means that the entries of
  -- the providers are distinct, that no unstaking has collected more than its share of the time, and
  -- that the totals of LP and xLP are the sums over the providers unless a reset of the balances is
  -- due.
  pub run-IsBooked :
      (calls : List (Env × ℕ × Call)) (p : Pool)
      → AreCalls calls
      → IsBooked p
      → IsBooked (run calls p)
  unfolding run step
  run-IsBooked [] p _ k = k
  run-IsBooked ((e, addr, call) ∷ rest) p (is_call, are_calls) k = run-IsBooked rest _ are_calls (
      kept_or_dropped (perform e addr call (record p { transfers = [] })) p k (
        perform-IsBooked e addr call _ is_call
          (frame-IsBooked p.fees p.yields p.history p.summaries [] p k)))

pub empty_pool-IsBooked : IsBooked empty_pool
empty_pool-IsBooked = record {
  distinct = tt;
  linear = λ addr. tt;
  lp_total = λ _. refl;
  xlp_total = λ _. refl;
}
