-- ===== src/Position/Prices.antt =====
-- The margin and the trigger prices of a position, in
-- packages/perpswap/src/contracts/market/position.rs.
use levana_perps.Cosmwasm.{Cosmwasm}
use levana_perps.Number.Signed.{
  signed_div, signed_add, Signed, new_positive, signed_sub, try_into_non_negative_value,
}
use levana_perps.Number.NonZero.{non_zero}
use levana_perps.Number.Unsigned.{checked_add, epsilon}
use levana_perps.Position.State.{
  MarketType, collateral_is_base, Position, LiquidationMargin, PricePoint, collateral_is_quote,
}
use levana_perps.Prelude.{
  ltb, if◌then◌else◌, ok, err, failed, ◌>>=◌, Result, ℕ, Bool, Option, none, some,
}

-- `Price::try_from_number`.
unfoldable pub try_from_number : Signed → Option ℕ
unfolding non_zero
try_from_number a = elim (try_into_non_negative_value a) [ none ↦ none | some v ↦ non_zero v ]

module _ ⦃c : Cosmwasm⦄ where
  -- `LiquidationMargin::total`.
  unfoldable pub margin_total : LiquidationMargin → Result ℕ
  unfolding checked_add
  margin_total m = do
    rates ← checked_add m.borrow m.funding
    charges ← checked_add m.delta_neutrality m.crank
    most ← checked_add rates charges
    checked_add most m.exposure

  -- `pnl_in_collateral`.
  unfoldable pub pnl_in_collateral : Position → Result Signed
  unfolding signed_sub
  pnl_in_collateral p =
      signed_sub (new_positive p.active_collateral) p.deposit_collateral.collateral

  -- The steps of `liquidation_price` that can fail.
  unfoldable pub raw_liquidation_price : ℕ → ℕ → LiquidationMargin → Position → Result Signed
  unfolding margin_total signed_sub signed_div
  raw_liquidation_price price active_collateral m p = do
    margin ← margin_total m
    spare ← signed_sub (new_positive active_collateral) (new_positive margin)
    move ← signed_div spare p.notional_size
    signed_sub (new_positive price) move

  unfoldable pub liquidation_price : ℕ → ℕ → LiquidationMargin → Position → Option ℕ
  unfolding raw_liquidation_price try_from_number
  liquidation_price price active_collateral m p =
      elim (raw_liquidation_price price active_collateral m p) [
        | err e ↦ none
        | ok number ↦ try_from_number number
      ]

  -- `Signed::approx_eq` with 0 of a number.
  unfoldable pub is_near_zero : Signed → Result Bool
  unfolding signed_sub
  is_near_zero a = do d ← signed_sub a (new_positive 0); ok (ltb d.value epsilon)

  -- The last match of `take_profit_price_total`.
  unfoldable pub or_infinite : Option ℕ → MarketType → Result (Option ℕ)
  or_infinite (some price) market_type = ok (some price)
  or_infinite none collateral_is_base = ok none
  or_infinite none collateral_is_quote = err failed

  unfoldable pub take_profit_price_total : PricePoint → MarketType → Position → Result (Option ℕ)
  unfolding signed_add signed_div is_near_zero try_from_number or_infinite
  take_profit_price_total e market_type p = do
    move ← signed_div (new_positive p.counter_collateral) p.notional_size
    raw ← signed_add (new_positive e.price_notional) move
    near_zero ← is_near_zero raw
    or_infinite (if near_zero then none else try_from_number raw) market_type
