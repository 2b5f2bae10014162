-- ===== src/Position/Tests.antt =====
-- Settlements at concrete values, and the theorems applied there.
use levana_perps.Cosmwasm.{documented, documented-IsDocumented, one}
use levana_perps.Liquidity.Locking.{update_locked_stats}
use levana_perps.Number.Signed.{Signed, new_negative, new_positive, neg}
use levana_perps.Position.Settle.{liquidation, settle_price_exposure, get_price_exposure}
use levana_perps.Position.Properties.{InRange, settle_locked_lem, settle_price_exposure_lem}
use levana_perps.Position.State.{
  collateral_is_quote, stays_open, to_close, liquidated, LiquidationMargin, MaybeClosedPosition,
  PricePoint, Position,
}
use levana_perps.Position.Prices.{take_profit_price_total, liquidation_price}
use levana_perps.Position.Outcome.{IsSettled}
use levana_perps.Prelude.{ok, ℕ, ◌+◌, ◌*◌, ◌≡◌, refl, some, arith}
use levana_perps.Liquidity.State.{LiquidityStats}

abbrev margins : LiquidationMargin
margins = record {
  borrow = one;
  funding = one;
  delta_neutrality = 2 * one;
  crank = 0;
  exposure = 0;
}

-- A long position of 100 with a collateral of 20 and a counter collateral of 30.
abbrev with_collateral : ℕ → ℕ → Position
with_collateral active counter = record {
  notional_size = new_positive (100 * one);
  active_collateral = active;
  counter_collateral = counter;
  deposit_collateral = record {
    collateral = new_positive (20 * one);
    usd = new_positive (20 * one);
  };
  liquidation_margin = margins;
}

abbrev opened : Position
opened = with_collateral (20 * one) (30 * one)

abbrev price_at : ℕ → PricePoint
price_at price = record { price_notional = price; price_usd = one }

-- A fall to 0.5 is a loss of 50, of which 18 are paid and 32 are beyond the margin.
fallen :
    settle_price_exposure ⦃c = documented⦄ one (price_at 500000000000000000) (2 * one) opened
    ≡ ok (
      to_close (
          liquidation opened
            (new_negative (18 * one))
            (32 * one)
            (price_at 500000000000000000)
            liquidated),
      new_negative (18 * one),
    )
unfolding settle_price_exposure
fallen = refl

-- A rise to 1.1 moves 10 to the trader.
abbrev risen_position : Position
risen_position = with_collateral (30 * one) (20 * one)

risen_exposure :
    get_price_exposure ⦃c = documented⦄ one (price_at 1100000000000000000) opened
    ≡ ok (new_positive (10 * one))
unfolding get_price_exposure
risen_exposure = refl

risen :
    settle_price_exposure ⦃c = documented⦄ one (price_at 1100000000000000000) (2 * one) opened
    ≡ ok (stays_open risen_position, new_positive (10 * one))
unfolding settle_price_exposure
risen = refl

-- With a margin of 4, the position is liquidated at 0.84, and it takes all at 1.3.
liquidated_at :
    liquidation_price ⦃c = documented⦄ one (20 * one) margins opened ≡ some 840000000000000000
unfolding liquidation_price
liquidated_at = refl

takes_profit_at :
    take_profit_price_total ⦃c = documented⦄ (price_at one) collateral_is_quote opened
    ≡ ok (some 1300000000000000000)
unfolding take_profit_price_total
takes_profit_at = refl

risen-InRange : InRange (new_positive (10 * one)) (2 * one) opened
risen-InRange = record {
  number = record { fits = omega arith; canonical = λ e. refl };
  exposure_fits = omega arith;
  collateral_fits = omega arith;
}

settle_price_exposure_lem_example :
    (outcome : MaybeClosedPosition) × (capped : Signed) × (settle_price_exposure ⦃c = documented⦄
        one
        (price_at 1100000000000000000)
        (2 * one)
        opened
      ≡ ok (outcome, capped))
    × IsSettled (new_positive (10 * one)) (2 * one) opened outcome capped
settle_price_exposure_lem_example =
    settle_price_exposure_lem ⦃c = documented⦄ documented-IsDocumented one
      (price_at 1100000000000000000) (2 * one) opened (new_positive (10 * one)) risen_exposure
      risen-InRange

-- Of 50 locked, 20 are for other positions.
abbrev locked_stats : ℕ → LiquidityStats
locked_stats locked = record { locked = locked; unlocked = 0; total_lp = 100 * one; total_xlp = 0 }

locked_run :
    update_locked_stats ⦃c = documented⦄ (neg (new_positive (10 * one))) (locked_stats (50 * one))
    ≡ ok (locked_stats (40 * one))
unfolding update_locked_stats neg
locked_run = refl

settle_locked_lem_example : 40 * one + 30 * one ≡ 50 * one + 20 * one
settle_locked_lem_example =
    settle_locked_lem ⦃c = documented⦄ documented-IsDocumented one (price_at 1100000000000000000)
      (2 * one) opened risen_position (new_positive (10 * one)) (new_positive (10 * one))
      (locked_stats (50 * one)) risen_exposure risen-InRange risen locked_run
