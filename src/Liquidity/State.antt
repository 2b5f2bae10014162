-- ===== src/Liquidity/State.antt =====
-- The state of the liquidity pool: contracts/market/src/state/liquidity.rs and liquidity/stats.rs, with
-- `LiquidityStats` of packages/perpswap/src/contracts/market/liquidity.rs, the LP history of
-- contracts/market/src/state/history/lp.rs, and the fee balances of contracts/market/src/state/fees.rs.
-- Amounts are atomics; times and durations are nanoseconds.
use levana_perps.Prelude.{◌==◌, ℕ, Bool, true, false, ◌&&◌, Option, none, some, List}
use levana_perps.Prelude.Dict.{Dict}

pub record LiquidityStats : Type 0 where
  pub locked : ℕ
  pub unlocked : ℕ
  pub total_lp : ℕ
  pub total_xlp : ℕ

abbrev pub no_liquidity : LiquidityStats
no_liquidity = record { locked = 0; unlocked = 0; total_lp = 0; total_xlp = 0 }

pub record YieldPerToken : Type 0 where
  pub lp : ℕ
  pub xlp : ℕ

pub record UnstakingXlp : Type 0 where
  pub xlp_amount : ℕ
  pub collected : ℕ
  pub unstake_started : ℕ
  pub unstake_duration : ℕ
  pub last_collected : ℕ

-- `LiquidityStatsByAddr`.
pub record AddrStats : Type 0 where
  pub lp : ℕ
  pub xlp : ℕ
  pub last_accrue_key : ℕ
  pub lp_accrued_yield : ℕ
  pub xlp_accrued_yield : ℕ
  pub crank_rewards : ℕ
  pub referrer_rewards : ℕ
  pub unstaking : Option UnstakingXlp
  pub cooldown_ends : Option ℕ

pub data ResetLpStatus : Type 0 where
  begin : ResetLpStatus
  last_saw : ℕ → ResetLpStatus

pub data LpActionKind : Type 0 where
  deposit_lp deposit_xlp reinvest_yield_lp reinvest_yield_xlp unstake_xlp : LpActionKind
  collect_lp withdraw claim_yield : LpActionKind

pub record LpAction : Type 0 where
  pub kind : LpActionKind
  pub timestamp : ℕ
  pub tokens : Option ℕ
  pub collateral : ℕ
  pub collateral_usd : ℕ

pub record LpHistorySummary : Type 0 where
  pub deposit : ℕ
  pub deposit_usd : ℕ
  pub yielded : ℕ
  pub yielded_usd : ℕ

pub record Fees : Type 0 where
  pub wallets : ℕ
  pub protocol : ℕ
  pub crank : ℕ
  pub referral : ℕ

pub record Pool : Type 0 where
  pub stats : LiquidityStats
  pub by_addr : Dict AddrStats
  -- `YIELD_PER_TIME_PER_TOKEN`, the greatest key first.
  pub yields : List (ℕ × YieldPerToken)
  pub reset : Option ResetLpStatus
  pub fees : Fees
  pub history : List (ℕ × LpAction)
  pub summaries : Dict LpHistorySummary
  -- `fund_transfers` of the context of the last call: what it sends to each account.
  pub transfers : Dict ℕ

pub data MaxLiquidity : Type 0 where
  unlimited : MaxLiquidity
  usd : ℕ → MaxLiquidity

-- The parts of the configuration, the block and the other components that the pool reads.
pub record Env : Type 0 where
  pub now : ℕ
  pub price_notional : ℕ
  pub price_usd : ℕ
  pub open_long : ℕ
  pub open_short : ℕ
  pub carry_leverage : ℕ
  pub max_liquidity : MaxLiquidity
  pub liquidity_cooldown_seconds : ℕ
  pub unstake_period_seconds : ℕ

-- `LiquidityStatsByAddr::is_empty`.
abbrev pub is_empty : AddrStats → Bool
is_empty a =
    a.lp == 0
    && a.xlp == 0
    && elim a.unstaking [ none ↦ true | some _ ↦ false ]
    && a.lp_accrued_yield == 0
    && a.xlp_accrued_yield == 0
    && a.crank_rewards == 0
    && a.referrer_rewards == 0

-- `LiquidityStatsByAddr::new`.
abbrev pub new_addr_stats : ℕ → AddrStats
new_addr_stats key = record {
  lp = 0;
  xlp = 0;
  last_accrue_key = key;
  lp_accrued_yield = 0;
  xlp_accrued_yield = 0;
  crank_rewards = 0;
  referrer_rewards = 0;
  unstaking = none;
  cooldown_ends = none;
}
