-- ===== src/Neutrality/Tests.antt =====
-- Runs of the delta neutrality fee at concrete values, and the theorems applied there.
use levana_perps.Neutrality.Balance.{earned, charge_apply_lem}
use levana_perps.Cosmwasm.{documented-IsDocumented, documented, one}
use levana_perps.Liquidity.Fees.{collect_trading_fee_inner, FeeRates}
use levana_perps.Number.Signed.{new_positive, new_negative}
use levana_perps.Prelude.{◌+◌, [], ◌∷◌, ok, Ensures, ◌*◌, ◌^◌, ◌≤◌, ◌≡◌, refl, none, some}
use levana_perps.Neutrality.Passes.{NeutralityConfig}
use levana_perps.Neutrality.Fund.{calc_delta_neutrality_fee_lem}
use levana_perps.Funding.Parts.{down}
use levana_perps.Liquidity.State.{Env, Pool, unlimited}
use levana_perps.Liquidity.Run.{empty_pool}
use levana_perps.Neutrality.Charge.{
  calc_delta_neutrality_fee, ChargedPosition, position_open, charge_delta_neutrality_fee,
  apply_charge, ChargeResult,
}

-- A cap of 0.1, a sensitivity of 1000 and a tax of 0.05.
abbrev fee_config : NeutralityConfig
fee_config = record {
  delta_neutrality_fee_cap = 10 ^ 17;
  delta_neutrality_fee_sensitivity = 1000 * one;
  delta_neutrality_fee_tax = 5 * 10 ^ 16;
}

abbrev fee_rates : FeeRates
fee_rates = record {
  protocol_tax = 3 * 10 ^ 17;
  crank_fee_reward = 2 * one;
  lp_borrow_fee = some (new_positive one);
  xlp_borrow_fee = none;
}

-- A net long interest of 100.
abbrev long_env : Env
long_env = record {
  now = 0;
  price_notional = one;
  price_usd = one;
  open_long = 100 * one;
  open_short = 0;
  carry_leverage = 10 * one;
  max_liquidity = unlimited;
  liquidity_cooldown_seconds = 0;
  unstake_period_seconds = 100;
}

abbrev lent_pool : Pool
lent_pool = record empty_pool {
  stats = record { locked = one; unlocked = 2 * one; total_lp = 5 * one; total_xlp = 0 };
}

abbrev trader : ChargedPosition
trader = record {
  active_collateral = 20 * one;
  delta_neutrality_margin = 3 * one;
  delta_neutrality_fee = record { collateral = new_positive 0; usd = new_positive 0 };
}

-- Closing 50 earns 3.75 of 5, and the fund has 4 of those 5.
paid_by_fund :
    calc_delta_neutrality_fee ⦃c = documented⦄ fee_config long_env
      (4 * one)
      (new_negative (50 * one))
      (some (3 * one))
    ≡ ok (new_negative (3 * one))
unfolding calc_delta_neutrality_fee
paid_by_fund = refl

-- Closing 250 crosses zero.
crossing :
    calc_delta_neutrality_fee ⦃c = documented⦄ fee_config long_env
      (4 * one)
      (new_negative (250 * one))
      none
    ≡ ok (new_positive (6 * one))
unfolding calc_delta_neutrality_fee
crossing = refl

calc_delta_neutrality_fee_lem_example :
    Ensures
      (λ fee. down fee ≤ 4 * one)
      (calc_delta_neutrality_fee ⦃c = documented⦄ fee_config long_env
        (4 * one)
        (new_negative (50 * one))
        (some (3 * one)))
calc_delta_neutrality_fee_lem_example =
    calc_delta_neutrality_fee_lem ⦃c = documented⦄ documented-IsDocumented fee_config long_env
      (4 * one) (new_negative (50 * one)) (some (3 * one))

-- Opening 50 costs 5, of which the protocol gets 0.25.
abbrev charge_result : ChargeResult
charge_result = record {
  fee = new_positive 5000000000000000000;
  fund_fees = new_positive 4750000000000000000;
  cap_triggered_info = none;
  total_funds_after = 8750000000000000000;
  protocol_fees = 250000000000000000;
}

abbrev charged_trader : ChargedPosition
charged_trader = record {
  active_collateral = 15000000000000000000;
  delta_neutrality_margin = 3 * one;
  delta_neutrality_fee = record {
    collateral = new_positive 5000000000000000000;
    usd = new_positive 5000000000000000000;
  };
}

open_run :
    charge_delta_neutrality_fee ⦃c = documented⦄ fee_config long_env
      (4 * one)
      trader
      (new_positive (50 * one))
      position_open
    ≡ ok (charge_result, charged_trader)
unfolding charge_delta_neutrality_fee
open_run = refl

abbrev collected_pool : Pool
collected_pool = record lent_pool {
  fees = record {
    wallets = 175000000000000000;
    protocol = 75000000000000000;
    crank = 0;
    referral = 0;
  };
  yields = (1, record { lp = 35000000000000000; xlp = 0 }) ∷ (0, record { lp = 0; xlp = 0 }) ∷ [];
}

apply_run :
    apply_charge ⦃c = documented⦄ fee_rates long_env charge_result lent_pool
    ≡ ok (8750000000000000000, collected_pool)
unfolding apply_charge collect_trading_fee_inner
apply_run = refl

charge_apply_lem_example :
    (15000000000000000000 + 8750000000000000000 + earned collected_pool
      ≡ 20 * one + 4 * one + earned lent_pool)
    × (0 ≤ 4 * one)
charge_apply_lem_example =
    charge_apply_lem ⦃c = documented⦄ documented-IsDocumented fee_config fee_rates long_env
      (4 * one) trader (new_positive (50 * one)) position_open lent_pool open_run apply_run
