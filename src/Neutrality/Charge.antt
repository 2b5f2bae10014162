-- ===== src/Neutrality/Charge.antt =====
-- The charge of the fee: `calc_delta_neutrality_fee`, `charge_delta_neutrality_fee` and
-- `ChargeDeltaNeutralityFeeResult::apply` of contracts/market/src/state/delta_neutrality_fee.rs, and
-- `SignedCollateralAndUsd` of packages/perpswap/src/contracts/market/position/collateral_and_usd.rs.
use levana_perps.Cosmwasm.{Cosmwasm}
use levana_perps.Liquidity.Storage.{collateral_to_usd, net_notional}
use levana_perps.Number.Signed.{
  checked_add_signed, Signed, signed_add, new_positive, new_negative, signed_sub,
}
use levana_perps.Number.NonZero.{non_zero_sub_signed}
use levana_perps.Number.Unsigned.{checked_mul_dec}
use levana_perps.Prelude.{
  unwrap_or, if◌then◌else◌, ◌>>=◌, ok, to_option, Result, ℕ, Option, none, some,
}
use levana_perps.Neutrality.Passes.{
  new_multi_pass, try_into_non_zero, NeutralityConfig, run_passes, CapTriggeredInfo,
}
use levana_perps.Liquidity.State.{Pool, Env}
use levana_perps.Liquidity.Fees.{collect_trading_fee_inner, FeeRates}

pub data DeltaNeutralityFeeReason : Type 0 where
  position_open position_update position_close : DeltaNeutralityFeeReason

-- `SignedCollateralAndUsd`.
pub record SignedCollateralAndUsd : Type 0 where
  pub collateral : Signed
  pub usd : Signed

-- What the charge reads and writes of `Position`; the first is not 0.
pub record ChargedPosition : Type 0 where
  pub active_collateral : ℕ
  pub delta_neutrality_margin : ℕ
  pub delta_neutrality_fee : SignedCollateralAndUsd

-- `ChargeDeltaNeutralityFeeResult`, less the copies of the price and of the event.
pub record ChargeResult : Type 0 where
  pub fee : Signed
  pub fund_fees : Signed
  pub cap_triggered_info : Option CapTriggeredInfo
  pub total_funds_after : ℕ
  pub protocol_fees : ℕ

-- The margin that caps the fee.
unfoldable pub margin_factor : DeltaNeutralityFeeReason → ChargedPosition → Option ℕ
margin_factor position_open position = none
margin_factor position_update position = some position.delta_neutrality_margin
margin_factor position_close position = some position.delta_neutrality_margin

module _ ⦃c : Cosmwasm⦄ where
  unfoldable pub calc_delta_neutrality_fee :
      NeutralityConfig → Env → ℕ → Signed → Option ℕ → Result Signed
  unfolding net_notional run_passes
  calc_delta_neutrality_fee f e fund notional_delta liquidation_margin_factor = do
    net ← net_notional e
    m ← run_passes f e (new_multi_pass fund net notional_delta liquidation_margin_factor)
    ok m.fees

  -- The tax of a payment into the fund, 0 where it is none or the product fails.
  unfoldable pub protocol_fees_of : NeutralityConfig → Signed → ℕ
  unfolding try_into_non_zero checked_mul_dec
  protocol_fees_of f fees = elim (try_into_non_zero fees) [
    | none ↦ 0
    | some v ↦ unwrap_or (to_option (checked_mul_dec v f.delta_neutrality_fee_tax)) 0
  ]

  unfoldable pub charge_no_update :
      NeutralityConfig
      → Env
      → ℕ
      → ChargedPosition
      → Signed
      → DeltaNeutralityFeeReason
      → Result ChargeResult
  unfolding net_notional run_passes protocol_fees_of signed_sub checked_add_signed margin_factor
  charge_no_update f e fund position notional_delta reason = do
    net ← net_notional e
    m ← run_passes f e (new_multi_pass fund net notional_delta (margin_factor reason position))
    let protocol_fees = protocol_fees_of f m.fees
    fund_fees ← signed_sub m.fees (new_positive protocol_fees)
    total_funds_after ← checked_add_signed m.total_in_fund_before_calc fund_fees
    ok (record {
      fee = m.fees;
      fund_fees = fund_fees;
      cap_triggered_info = m.cap_triggered_info;
      total_funds_after = total_funds_after;
      protocol_fees = protocol_fees;
    })

  -- `SignedCollateralAndUsd::checked_add_assign`.
  unfoldable pub checked_add_assign :
      Env → Signed → SignedCollateralAndUsd → Result SignedCollateralAndUsd
  unfolding signed_add collateral_to_usd
  checked_add_assign e amount t = do
    collateral ← signed_add t.collateral amount
    worth ← collateral_to_usd e amount.value
    usd ← signed_add t.usd (if amount.negative then new_negative worth else new_positive worth)
    ok (record { collateral = collateral; usd = usd })

  unfoldable pub charge_delta_neutrality_fee :
      NeutralityConfig
      → Env
      → ℕ
      → ChargedPosition
      → Signed
      → DeltaNeutralityFeeReason
      → Result (ChargeResult × ChargedPosition)
  unfolding charge_no_update non_zero_sub_signed checked_add_assign
  charge_delta_neutrality_fee f e fund position notional_delta reason = do
    res ← charge_no_update f e fund position notional_delta reason
    active ← non_zero_sub_signed position.active_collateral res.fee
    charged ← checked_add_assign e res.fee position.delta_neutrality_fee
    ok (res, record position { active_collateral = active; delta_neutrality_fee = charged })

  -- `apply`: the fund and the pool after it.
  unfoldable pub apply_charge : FeeRates → Env → ChargeResult → Pool → Result (ℕ × Pool)
  unfolding collect_trading_fee_inner
  apply_charge rates e res p = do
    p1 ← collect_trading_fee_inner rates e res.protocol_fees p
    ok (res.total_funds_after, p1)
