-- ===== src/Liquidity/ReferralTests.antt =====
-- The fee of a trader with a referrer and the claim of a reward at concrete values, and the
-- theorems applied there.
use levana_perps.Liquidity.Keeping.{perform_lp_book_keeping}
use levana_perps.Liquidity.Claiming.{IsClaimed, liquidity_claim_yield_lem}
use levana_perps.Liquidity.ReferralBalance.{Collects, collect_referred_fee_lem}
use levana_perps.Liquidity.Provider.{liquidity_claim_yield}
use levana_perps.Liquidity.Fees.{collect_trading_fee_inner}
use levana_perps.Cosmwasm.{documented-IsDocumented, one, documented}
use levana_perps.Liquidity.Referral.{
  CollateralAndUsd, ReferralRates, collect_trading_fee, ReferralStats,
}
use levana_perps.Number.Signed.{new_positive}
use levana_perps.Prelude.Dict.{Dict}
use levana_perps.Prelude.{true, ok, ◌≡◌, refl, ◌∷◌, ◌*◌, ◌^◌, none, some, []}
use levana_perps.Liquidity.State.{LpActionKind, Env, Pool, unlimited}
use levana_perps.Liquidity.Run.{empty_pool}
use levana_perps.Liquidity.State.{new_addr_stats}

-- A fifth goes to the referrer, and a tenth of the rest to the protocol.
abbrev referral_rates : ReferralRates
referral_rates = record {
  rates = record {
    protocol_tax = 10 ^ 17;
    crank_fee_reward = 0;
    lp_borrow_fee = some (new_positive one);
    xlp_borrow_fee = none;
  };
  referral_reward_ratio = 2 * 10 ^ 17;
}

abbrev flat_env : Env
flat_env = record {
  now = 0;
  price_notional = one;
  price_usd = 2 * one;
  open_long = 0;
  open_short = 0;
  carry_leverage = 10 * one;
  max_liquidity = unlimited;
  liquidity_cooldown_seconds = 0;
  unstake_period_seconds = 100;
}

abbrev fee_pool : Pool
fee_pool = record empty_pool {
  stats = record { locked = one; unlocked = 2 * one; total_lp = 4 * one; total_xlp = 0 };
}

abbrev referred_pool : Pool
referred_pool = record fee_pool {
  by_addr = (8, record (new_addr_stats 0) { referrer_rewards = 2 * one }) ∷ [];
  yields = (1, record { lp = 18 * 10 ^ 17; xlp = 0 }) ∷ (0, record { lp = 0; xlp = 0 }) ∷ [];
  fees = record { wallets = 72 * 10 ^ 17; protocol = 8 * 10 ^ 17; crank = 0; referral = 2 * one };
}

abbrev none_yet : CollateralAndUsd
none_yet = record { collateral = 0; usd = 0 }

abbrev rewarded : CollateralAndUsd
rewarded = record { collateral = 2 * one; usd = 4 * one }

abbrev referred_stats : Dict ReferralStats
referred_stats =
    (3, record { generated = rewarded; received = none_yet })
    ∷ (8, record { generated = none_yet; received = rewarded })
    ∷ []

referred_run :
    collect_trading_fee ⦃c = documented⦄ referral_rates flat_env 3 (some 8) (10 * one) [] fee_pool
    ≡ ok (referred_stats, referred_pool)
unfolding collect_trading_fee collect_trading_fee_inner
referred_run = refl

collect_referred_fee_lem_example : Collects (10 * one) fee_pool referred_pool
collect_referred_fee_lem_example =
    collect_referred_fee_lem ⦃c = documented⦄ documented-IsDocumented referral_rates flat_env 3
      (some 8) (10 * one) [] fee_pool referred_run

-- The referrer claims the reward, which leaves the balance of the wallets.
abbrev claimed_pool : Pool
claimed_pool = record referred_pool {
  by_addr = [];
  fees = record { wallets = 52 * 10 ^ 17; protocol = 8 * 10 ^ 17; crank = 0; referral = 2 * one };
  transfers = (8, 2 * one) ∷ [];
  history =
      (
        8,
        record {
          kind = LpActionKind.claim_yield;
          timestamp = 0;
          tokens = none;
          collateral = 2 * one;
          collateral_usd = 4 * one;
        },
      )
      ∷ [];
  summaries =
      (8, record { deposit = 0; deposit_usd = 0; yielded = 2 * one; yielded_usd = 4 * one }) ∷ [];
}

claimed_run :
    liquidity_claim_yield ⦃c = documented⦄ flat_env 8 true referred_pool
    ≡ ok (2 * one, claimed_pool)
unfolding liquidity_claim_yield
claimed_run = refl

liquidity_claim_yield_lem_example :
    IsClaimed
      (perform_lp_book_keeping ⦃c = documented⦄ flat_env 8 referred_pool)
      8
      true
      referred_pool
      (2 * one, claimed_pool)
liquidity_claim_yield_lem_example =
    liquidity_claim_yield_lem ⦃c = documented⦄ documented-IsDocumented flat_env 8 true referred_pool
      (refl, tt) claimed_run
