-- ===== src/Liquidity/Tests.antt =====
-- Runs of the pool at concrete values, and the theorems applied there.
use levana_perps.Liquidity.Burning.{least_now, burn_shares_lem, Burns}
use levana_perps.Liquidity.Collateral.{
  least_for, update_locked_stats_lem, unlock_stats_lem, lock_stats_lem,
}
use levana_perps.Liquidity.Locking.{update_locked_stats, unlock_stats, lock_stats}
use levana_perps.Liquidity.Provider.{burn_shares}
use levana_perps.Number.Signed.{new_negative}
use levana_perps.Cosmwasm.{documented, one, documented-IsDocumented}
use levana_perps.Liquidity.RunBooks.{empty_pool-IsBooked, run-IsBooked}
use levana_perps.Liquidity.Keeping.{perform_lp_book_keeping, calculate_unstaked_lp}
use levana_perps.Liquidity.Books.{IsBooked, IsLinear}
use levana_perps.Liquidity.Stats.{collateral_to_lp, lp_to_collateral}
use levana_perps.Liquidity.State.{LiquidityStats, Env, unlimited, UnstakingXlp}
use levana_perps.Liquidity.Run.{
  collect_unstaked, empty_pool, withdraw_liquidity, new_yield, Call, run, deposit_liquidity,
  unstake,
}
use levana_perps.Liquidity.Shares.{
  deposit_withdraw_lem, lp_to_collateral_fair, collateral_to_lp_fair,
}
use levana_perps.Liquidity.KeepsBooks.{SameTotals, perform_lp_book_keeping-SameTotals}
use levana_perps.Liquidity.Linear.{unstaked_all, collected_at, unstaked_bound}
use levana_perps.Prelude.{
  err, failed, insufficient_liquidity, ◌⊎◌, ok, Ensures, ℕ, ◌+◌, ◌-◌, ◌*◌, ◌≤◌, ◌<◌, ◌≡◌, refl,
  true, false, none, some, List, [], ◌∷◌, arith,
}

-- A token is worth one dollar; a day in the source's seconds is the unstaking period.
abbrev env_at : ℕ → Env
env_at now = record {
  now = now;
  price_notional = one;
  price_usd = one;
  open_long = 0;
  open_short = 0;
  carry_leverage = 10 * one;
  max_liquidity = unlimited;
  liquidity_cooldown_seconds = 0;
  unstake_period_seconds = 100;
}

abbrev second : ℕ
second = 1000000000

-- Account 1 deposits, stakes, unstakes and withdraws what is free; account 2 asks for too much.
abbrev day : List (Env × ℕ × Call)
day =
    (env_at 0, 1, deposit_liquidity (1000 * one) true)
    ∷ (env_at 0, 2, deposit_liquidity (500 * one) false)
    ∷ (env_at second, 3, new_yield (5 * one) (10 * one))
    ∷ (env_at (2 * second), 1, unstake (some (400 * one)))
    ∷ (env_at (52 * second), 1, collect_unstaked)
    ∷ (env_at (53 * second), 2, withdraw_liquidity (some (600 * one)) false)
    ∷ (env_at (54 * second), 2, withdraw_liquidity none false)
    ∷ []

run-IsBooked_example : IsBooked (run ⦃c = documented⦄ day empty_pool)
run-IsBooked_example =
    run-IsBooked ⦃c = documented⦄ documented-IsDocumented day empty_pool
      (tt, (tt, (tt, (omega arith, (tt, (tt, (tt, tt))))))) empty_pool-IsBooked

-- Half of the unstaking period is over, so half of what unstakes is LP again.
totals_run :
    (run ⦃c = documented⦄ day empty_pool).stats
    ≡ record { locked = 0; unlocked = 1000 * one; total_lp = 400 * one; total_xlp = 600 * one }
unfolding run
totals_run = refl

abbrev u0 : UnstakingXlp
u0 = record {
  xlp_amount = 300 * one;
  collected = 0;
  unstake_started = 0;
  unstake_duration = 90 * second;
  last_collected = 0;
}

u0-IsLinear : IsLinear u0
u0-IsLinear = record { open_yet = omega arith; begun = omega arith; share = omega arith }

-- A third of the period frees a third, rounded down.
freed_run :
    calculate_unstaked_lp ⦃c = documented⦄ (env_at (30 * second)) u0 ≡ ok 99999999999999999900
unfolding calculate_unstaked_lp
freed_run = refl

unstaked_bound_example :
    (u0.collected + 99999999999999999900 ≡ u0.xlp_amount)
    ⊎ IsLinear (collected_at (30 * second) 99999999999999999900 u0)
unstaked_bound_example =
    unstaked_bound ⦃c = documented⦄ documented-IsDocumented (env_at (30 * second)) u0 u0-IsLinear
      freed_run

unstaked_all_example :
    calculate_unstaked_lp ⦃c = documented⦄ (env_at (90 * second)) u0 ≡ ok (300 * one - 0)
unstaked_all_example =
    unstaked_all ⦃c = documented⦄ documented-IsDocumented (env_at (90 * second)) u0 (omega arith)
      (omega arith) (omega arith)

-- The shares of a deposit of 10 to a pool of 3 for 7 tokens, in whole tokens.
abbrev s1 : LiquidityStats
s1 = record { locked = one; unlocked = 2 * one; total_lp = 5 * one; total_xlp = 2 * one }

minted_run : collateral_to_lp ⦃c = documented⦄ s1 (10 * one) ≡ ok 23333333333333333333
unfolding collateral_to_lp
minted_run = refl

returned_run :
    lp_to_collateral ⦃c = documented⦄
      (record s1 { total_lp = 5 * one + 23333333333333333333; unlocked = 2 * one + 10 * one })
      23333333333333333333
    ≡ ok 9999999999999999999
unfolding lp_to_collateral
returned_run = refl

deposit_withdraw_lem_example : 9999999999999999999 ≤ 10 * one
deposit_withdraw_lem_example =
    deposit_withdraw_lem ⦃c = documented⦄ documented-IsDocumented s1 (10 * one) minted_run
      returned_run

collateral_to_lp_fair_example :
    (0 < 23333333333333333333)
    × ((one + 2 * one) * ((5 * one + 2 * one) + 23333333333333333333)
        ≤ ((one + 2 * one) + 10 * one) * (5 * one + 2 * one))
collateral_to_lp_fair_example =
    collateral_to_lp_fair ⦃c = documented⦄ documented-IsDocumented s1 (10 * one) minted_run

worth_run : lp_to_collateral ⦃c = documented⦄ s1 one ≡ ok 428571428571428571
unfolding lp_to_collateral
worth_run = refl

lp_to_collateral_fair_example :
    (one + 2 * one) * ((5 * one + 2 * one) - one)
    ≤ ((one + 2 * one) - 428571428571428571) * (5 * one + 2 * one)
lp_to_collateral_fair_example =
    lp_to_collateral_fair ⦃c = documented⦄ documented-IsDocumented s1 one (omega arith) worth_run

perform_lp_book_keeping-SameTotals_example :
    Ensures (SameTotals (run ⦃c = documented⦄ day empty_pool).stats) (
      perform_lp_book_keeping ⦃c = documented⦄
        (env_at (60 * second))
        1
        (run ⦃c = documented⦄ day empty_pool))
perform_lp_book_keeping-SameTotals_example =
    perform_lp_book_keeping-SameTotals ⦃c = documented⦄ documented-IsDocumented
      (env_at (60 * second)) 1 (run ⦃c = documented⦄ day empty_pool) run-IsBooked_example

abbrev s2 : LiquidityStats
s2 = record s1 { locked = 2 * one; unlocked = one }

locked_run : lock_stats ⦃c = documented⦄ (env_at 0) one none none s1 ≡ ok s2
unfolding lock_stats
locked_run = refl

burnt_run :
    burn_shares ⦃c = documented⦄ (env_at 0) one s1
    ≡ ok (
      428571428571428571,
      record s1 { total_lp = 4 * one; unlocked = 2 * one - 428571428571428571 },
    )
unfolding burn_shares
burnt_run = refl

lock_stats_lem_example :
    (s2 ≡ record s1 { locked = s1.locked + one; unlocked = s1.unlocked - one })
    × ((least : ℕ) × (least_for ⦃c = documented⦄ (env_at 0) none none ≡ ok least)
        × (least ≤ s1.unlocked - one))
    × (unlock_stats ⦃c = documented⦄ one s2 ≡ ok s1)
lock_stats_lem_example =
    lock_stats_lem ⦃c = documented⦄ documented-IsDocumented (env_at 0) one none none s1
      (omega arith) locked_run

unlock_stats_lem_example : unlock_stats ⦃c = documented⦄ (2 * one) s1 ≡ err insufficient_liquidity
unlock_stats_lem_example =
    unlock_stats_lem ⦃c = documented⦄ documented-IsDocumented (2 * one) s1 (omega arith)

update_locked_stats_lem_example :
    update_locked_stats ⦃c = documented⦄ (new_negative (2 * one)) s1 ≡ err failed
update_locked_stats_lem_example =
    update_locked_stats_lem ⦃c = documented⦄ documented-IsDocumented (new_negative (2 * one)) s1
      (omega arith) (record { fits = omega arith; canonical = λ e. ground arith })

burn_shares_lem_example :
    Burns ⦃c = documented⦄ (least_now ⦃c = documented⦄ (env_at 0)) one s1 (
      428571428571428571,
      record s1 { total_lp = 4 * one; unlocked = 2 * one - 428571428571428571 },
    )
burn_shares_lem_example =
    burn_shares_lem ⦃c = documented⦄ documented-IsDocumented (env_at 0) one s1 burnt_run
