-- ===== src/Liquidity/FeeTests.antt =====
-- Runs of the fees at concrete values, and the theorems applied there.
use levana_perps.Cosmwasm.{documented, documented-IsDocumented, one}
use levana_perps.Liquidity.State.{Pool, unlimited, Env, new_addr_stats}
use levana_perps.Liquidity.Run.{empty_pool}
use levana_perps.Liquidity.FeeBalance.{
  Adds, Pays, allocate_crank_fees_lem, collect_trading_fee_lem, collect_borrow_fee_lem,
}
use levana_perps.Liquidity.Fees.{
  collect_borrow_fee, collect_trading_fee_inner, FeeRates, allocate_crank_fees,
}
use levana_perps.Number.Signed.{new_positive}
use levana_perps.Prelude.{ok, ℕ, ◌+◌, ◌*◌, ◌≡◌, refl, some, [], ◌∷◌}

abbrev tenth : ℕ
tenth = 100000000000000000

abbrev rates : FeeRates
rates = record {
  protocol_tax = 3 * tenth;
  crank_fee_reward = 2 * one;
  lp_borrow_fee = some (new_positive one);
  xlp_borrow_fee = some (new_positive one);
}

abbrev env : Env
env = record {
  now = 0;
  price_notional = one;
  price_usd = one;
  open_long = 0;
  open_short = 0;
  carry_leverage = 10 * one;
  max_liquidity = unlimited;
  liquidity_cooldown_seconds = 0;
  unstake_period_seconds = 100;
}

-- 5 LP, 2 xLP, and 3 in the crank fees.
abbrev p0 : Pool
p0 = record empty_pool {
  stats = record { locked = one; unlocked = 2 * one; total_lp = 5 * one; total_xlp = 2 * one };
  fees = record { wallets = 0; protocol = 0; crank = 3 * one; referral = 0 };
}

-- Of 10, the protocol gets 3, and LP and xLP get 3.5 each.
abbrev p1 : Pool
p1 = record p0 {
  fees = record { wallets = 7 * one; protocol = 3 * one; crank = 3 * one; referral = 0 };
  yields =
      (1, record { lp = 7 * tenth; xlp = 1750000000000000000 })
      ∷ (0, record { lp = 0; xlp = 0 })
      ∷ [];
}

traded_run : collect_trading_fee_inner ⦃c = documented⦄ rates env (10 * one) p0 ≡ ok p1
unfolding collect_trading_fee_inner
traded_run = refl

collect_trading_fee_lem_example : Adds (10 * one) p0 p1
collect_trading_fee_lem_example =
    collect_trading_fee_lem ⦃c = documented⦄ documented-IsDocumented rates env (10 * one) p0
      traded_run

borrowed_run : collect_borrow_fee ⦃c = documented⦄ rates env (5 * one) (5 * one) p0 ≡ ok p1
unfolding collect_borrow_fee
borrowed_run = refl

collect_borrow_fee_lem_example : Adds (5 * one + 5 * one) p0 p1
collect_borrow_fee_lem_example =
    collect_borrow_fee_lem ⦃c = documented⦄ documented-IsDocumented rates env (5 * one) (5 * one) p0
      borrowed_run

-- Two cranks would earn 4, and there are 3.
abbrev p2 : Pool
p2 = record p1 {
  fees = record { wallets = 10 * one; protocol = 3 * one; crank = 0; referral = 0 };
  by_addr = (7, record (new_addr_stats 1) { crank_rewards = 3 * one }) ∷ [];
}

cranked_run : allocate_crank_fees ⦃c = documented⦄ rates env 7 2 p1 ≡ ok p2
unfolding allocate_crank_fees
cranked_run = refl

allocate_crank_fees_lem_example : Pays p1 p2
allocate_crank_fees_lem_example =
    allocate_crank_fees_lem ⦃c = documented⦄ documented-IsDocumented rates env 7 2 p1 cranked_run
