-- ===== src/Neutrality/Passes.antt =====
-- `DeltaNeutralityFeeMultiPass` of contracts/market/src/state/delta_neutrality_fee.rs. The assertions
-- of debug builds are not modelled.
use levana_perps.Liquidity.State.{Env}
use levana_perps.Cosmwasm.{Cosmwasm, one}
use levana_perps.Liquidity.Storage.{notional_to_collateral}
use levana_perps.Number.Signed.{
  neg, Signed, checked_add_signed, new_negative, signed_mul, try_into_non_negative_value,
  is_negative, new_positive, is_less, signed_add,
}
use levana_perps.Number.NonZero.{non_zero}
use levana_perps.Number.Unsigned.{div_non_zero, approx_eq}
use levana_perps.Prelude.{ltb, leb, ◌==◌, if◌then◌else◌, Result, ◌>>=◌, ok, ℕ, Option, none, some}
use levana_perps.Neutrality.Amount.{calculate_delta_neutrality_fee_amount}

-- What the passes read of `Config`.
pub record NeutralityConfig : Type 0 where
  pub delta_neutrality_fee_cap : ℕ
  pub delta_neutrality_fee_sensitivity : ℕ
  pub delta_neutrality_fee_tax : ℕ

pub record CapTriggeredInfo : Type 0 where
  pub available : ℕ
  pub requested : ℕ

pub record MultiPass : Type 0 where
  pub fees : Signed
  pub total_in_fund_before_calc : ℕ
  pub net_notional : Signed
  pub delta_notional : Signed
  pub liquidation_margin_factor : Option ℕ
  pub cap_triggered_info : Option CapTriggeredInfo

-- `DeltaNeutralityFeeMultiPass::new`, with what the fund holds.
abbrev pub new_multi_pass : ℕ → Signed → Signed → Option ℕ → MultiPass
new_multi_pass fund net_notional delta_notional liquidation_margin_factor = record {
  fees = new_positive 0;
  total_in_fund_before_calc = fund;
  net_notional = net_notional;
  delta_notional = delta_notional;
  liquidation_margin_factor = liquidation_margin_factor;
  cap_triggered_info = none;
}

-- `Signed::try_into_non_zero`.
unfoldable pub try_into_non_zero : Signed → Option ℕ
unfolding non_zero
try_into_non_zero a = elim (try_into_non_negative_value a) [ none ↦ none | some v ↦ non_zero v ]

-- The fee under the liquidation margin, with what the cap refused.
unfoldable pub cap_fee : Option ℕ → Signed → Signed × Option CapTriggeredInfo
unfolding try_into_non_zero
cap_fee none amount = (amount, none)
cap_fee (some cap) amount = elim (try_into_non_zero amount) [
  | none ↦ (amount, none)
  | some v ↦
      if ltb cap v
      then (new_positive cap, some (record { available = cap; requested = v }))
      else (amount, none)
]

-- What a pass leaves in `cap_triggered_info`.
abbrev pub noted : Option CapTriggeredInfo → Option CapTriggeredInfo → Option CapTriggeredInfo
noted old none = old
noted old (some info) = some info

module _ ⦃c : Cosmwasm⦄ where
  unfoldable pub in_collateral : Env → Signed → Result Signed
  unfolding notional_to_collateral
  in_collateral e amount = do
    v ← notional_to_collateral e amount.value
    ok (if amount.negative then new_negative v else new_positive v)

  unfoldable pub fee_amount : NeutralityConfig → Signed → Signed → Result Signed
  unfolding calculate_delta_neutrality_fee_amount
  fee_amount f net_notional delta_notional =
      calculate_delta_neutrality_fee_amount (new_positive f.delta_neutrality_fee_cap)
        (new_positive f.delta_neutrality_fee_sensitivity) net_notional delta_notional

  -- The part of the slippage that the fund covers, before it is capped at 1.
  unfoldable pub slippage_fundedness : ℕ → ℕ → Result ℕ
  unfolding approx_eq div_non_zero
  slippage_fundedness fund slippage =
      if slippage == 0
      then ok one
      else (approx_eq slippage 0 >>= λ near_zero.
          if near_zero then ok one else div_non_zero fund slippage)

  -- A payment from the fund, limited by what it holds.
  unfoldable pub limit_payment : ℕ → ℕ → Signed → Result Signed
  unfolding slippage_fundedness signed_mul is_less neg
  limit_payment fund slippage amount = do
    fundedness ← slippage_fundedness fund slippage
    let ratio = if leb fundedness one then fundedness else one
    n ← signed_mul amount (new_positive ratio)
    ok (if is_less (new_positive fund) (neg n) then neg (new_positive fund) else n)

  unfoldable pub funded_amount : NeutralityConfig → Env → Signed → ℕ → Signed → Result Signed
  unfolding fee_amount notional_to_collateral limit_payment neg
  funded_amount f e net_notional fund amount =
      if is_negative amount
      then (fee_amount f net_notional (neg net_notional) >>= λ slippage_in_notional.
          notional_to_collateral e slippage_in_notional.value >>= λ slippage.
          limit_payment fund slippage amount)
      else ok amount

  unfoldable pub update_inner : NeutralityConfig → Env → Signed → MultiPass → Result MultiPass
  unfolding checked_add_signed fee_amount in_collateral funded_amount cap_fee signed_add
  update_inner f e delta_notional m = do
    total_in_fund_so_far ← checked_add_signed m.total_in_fund_before_calc m.fees
    amount_in_notional ← fee_amount f m.net_notional delta_notional
    amount ← in_collateral e amount_in_notional
    funded ← funded_amount f e m.net_notional total_in_fund_so_far amount
    let capped = cap_fee m.liquidation_margin_factor funded
    fees ← signed_add m.fees capped.0
    net_notional ← signed_add m.net_notional delta_notional
    ok (record m {
      fees = fees;
      net_notional = net_notional;
      cap_triggered_info = noted m.cap_triggered_info capped.1;
    })

  -- `run`: a change across zero is done in two passes.
  unfoldable pub run_passes : NeutralityConfig → Env → MultiPass → Result MultiPass
  unfolding signed_add signed_mul update_inner neg
  run_passes f e m = do
    net_notional_after ← signed_add m.net_notional m.delta_notional
    product ← signed_mul m.net_notional net_notional_after
    if is_negative product
        then (update_inner f e (neg m.net_notional) m >>= λ m1.
            signed_add m.delta_notional m.net_notional >>= λ rest. update_inner f e rest m1)
        else update_inner f e m.delta_notional m
