-- ===== src/Liquidity/Referral.antt =====
-- The fees of a trader with a referrer, the transfer to the DAO and the return of crank fees:
-- contracts/market/src/state/fees.rs and contracts/market/src/state/referral.rs, with
-- `CollateralAndUsd` of packages/perpswap/src/contracts/market/position/collateral_and_usd.rs.
use levana_perps.Cosmwasm.{Cosmwasm}
use levana_perps.Liquidity.Locking.{add_lp_crank_rewards}
use levana_perps.Liquidity.Fees.{collect_trading_fee_inner, FeeRates}
use levana_perps.Liquidity.Storage.{
  load_addr_default, add_transfer, collateral_to_usd, save_addr, collateral_to_usd_non_zero,
}
use levana_perps.Number.NonZero.{non_zero}
use levana_perps.Number.Unsigned.{checked_sub, checked_mul_dec, checked_add}
use levana_perps.Prelude.{
  ◌==◌, unwrap_or, if◌then◌else◌, not_found, ok, ◌>>=◌, context, failed, Result, ℕ, Option, none,
  some,
}
use levana_perps.Prelude.Dict.{may_load, Dict, save}
use levana_perps.Liquidity.State.{Fees, Env, Pool}

pub record CollateralAndUsd : Type 0 where
  pub collateral : ℕ
  pub usd : ℕ

-- An entry of `REFERRAL_STATS_MAP`.
pub record ReferralStats : Type 0 where
  pub generated : CollateralAndUsd
  pub received : CollateralAndUsd

abbrev no_collateral : CollateralAndUsd
no_collateral = record { collateral = 0; usd = 0 }

-- The default of a missing entry.
abbrev pub referral_stats_of : ℕ → Dict ReferralStats → ReferralStats
referral_stats_of addr d =
    unwrap_or (may_load addr d) (record { generated = no_collateral; received = no_collateral })

-- The fees of a trader: those of the market, with the part of the referrer.
pub record ReferralRates : Type 0 where
  pub rates : FeeRates
  pub referral_reward_ratio : ℕ

module _ ⦃c : Cosmwasm⦄ where
  -- `CollateralAndUsd::checked_add_assign`.
  unfoldable pub add_collateral : Env → ℕ → CollateralAndUsd → Result CollateralAndUsd
  unfolding checked_add collateral_to_usd
  add_collateral e amount t = do
    collateral ← checked_add t.collateral amount
    worth ← collateral_to_usd e amount
    usd ← checked_add t.usd worth
    ok (record { collateral = collateral; usd = usd })

  -- `add_summary_referral`; the dollar value of its event was computed before.
  unfoldable pub add_summary_referral :
      Env → ℕ → ℕ → ℕ → Dict ReferralStats → Result (Dict ReferralStats)
  unfolding add_collateral
  add_summary_referral e referee referrer reward d = do
    let referee_stats = referral_stats_of referee d
    generated ← add_collateral e reward referee_stats.generated
    let d1 = save referee (record referee_stats { generated = generated }) d
    let referrer_stats = referral_stats_of referrer d1
    received ← add_collateral e reward referrer_stats.received
    ok (save referrer (record referrer_stats { received = received }) d1)

  -- The reward of a referrer: in the balance of the referrals, and in the referrer's entry.
  unfoldable pub reward_referrer : ℕ → ℕ → Pool → Result Pool
  unfolding checked_add load_addr_default save_addr
  reward_referrer referrer reward p = do
    referral ← checked_add p.fees.referral reward
    let p1 = record p { fees = record p.fees { referral = referral } }
    a ← load_addr_default referrer p1
    rewards ← checked_add a.referrer_rewards reward
    ok (save_addr referrer (record a { referrer_rewards = rewards }) p1)

  -- What is left of a fee after the reward, with the statistics and the pool.
  unfoldable pub take_referral :
      ReferralRates
      → Env
      → ℕ
      → Option ℕ
      → ℕ
      → Dict ReferralStats
      → Pool
      → Result (ℕ × Dict ReferralStats × Pool)
  unfolding checked_mul_dec reward_referrer add_summary_referral checked_sub
  take_referral r e owner none amount d p = ok (amount, d, p)
  take_referral r e owner (some referrer) amount d p = do
    reward ← checked_mul_dec amount r.referral_reward_ratio
    p1 ← reward_referrer referrer reward p
    d1 ← (if reward == 0 then ok d else add_summary_referral e owner referrer reward d)
    rest ← checked_sub amount reward
    ok (rest, d1, p1)

  -- `referrer` is what the factory answers for the owner.
  unfoldable pub collect_trading_fee :
      ReferralRates
      → Env
      → ℕ
      → Option ℕ
      → ℕ
      → Dict ReferralStats
      → Pool
      → Result (Dict ReferralStats × Pool)
  unfolding take_referral collect_trading_fee_inner
  collect_trading_fee r e owner referrer amount d p = do
    taken ← take_referral r e owner referrer amount d p
    q ← collect_trading_fee_inner r.rates e taken.0 taken.2
    ok (taken.1, q)

  -- `dao_addr` is the account that the factory names.
  unfoldable pub transfer_fees_to_dao : Option ℕ → Pool → Result Pool
  unfolding non_zero add_transfer
  transfer_fees_to_dao dao_addr p = do
    amount ← context (non_zero p.fees.protocol) failed
    dao ← context dao_addr not_found
    add_transfer dao amount (record p { fees = record p.fees { protocol = 0 } })

  unfoldable pub return_funds_to_user : Env → ℕ → ℕ → Pool → Result Pool
  unfolding checked_add add_lp_crank_rewards collateral_to_usd_non_zero
  return_funds_to_user e addr amount p = do
    wallets ← checked_add p.fees.wallets amount
    p1 ← add_lp_crank_rewards addr amount (record p { fees = record p.fees { wallets = wallets } })
    worth ← collateral_to_usd_non_zero e amount
    ok p1

  unfoldable pub collect_delta_neutrality_fee_for_protocol : FeeRates → Env → ℕ → Pool → Result Pool
  unfolding collect_trading_fee_inner
  collect_delta_neutrality_fee_for_protocol r e amount p = collect_trading_fee_inner r e amount p

-- `fees_init`.
abbrev pub initial_fees : Fees
initial_fees = record { wallets = 0; protocol = 0; crank = 0; referral = 0 }
