-- ===== src/Position/State.antt =====
-- The position of packages/perpswap/src/contracts/market/position.rs, less the fields that the methods
-- modelled here do not touch, and the instructions to close one, of
-- packages/perpswap/src/contracts/market/position/closed.rs.
use levana_perps.Number.Signed.{Signed}
use levana_perps.Prelude.{if◌then◌else◌, ℕ, Bool}
use levana_perps.Neutrality.Charge.{SignedCollateralAndUsd}

-- `LiquidationMargin`.
pub record LiquidationMargin : Type 0 where
  pub borrow : ℕ
  pub funding : ℕ
  pub delta_neutrality : ℕ
  pub crank : ℕ
  pub exposure : ℕ

-- `Position`; the active and the counter collateral are not 0.
pub record Position : Type 0 where
  pub notional_size : Signed
  pub active_collateral : ℕ
  pub counter_collateral : ℕ
  pub deposit_collateral : SignedCollateralAndUsd
  pub liquidation_margin : LiquidationMargin

-- The prices of a `PricePoint`, which are not 0.
pub record PricePoint : Type 0 where
  pub price_notional : ℕ
  pub price_usd : ℕ

pub data DirectionToNotional : Type 0 where
  long short : DirectionToNotional

pub data MarketType : Type 0 where
  collateral_is_quote collateral_is_base : MarketType

pub data LiquidationReason : Type 0 where
  liquidated max_gains stop_loss take_profit : LiquidationReason

pub data PositionCloseReason : Type 0 where
  by_liquidation : LiquidationReason → PositionCloseReason
  direct : PositionCloseReason

pub record ClosePositionInstructions : Type 0 where
  pub position : Position
  pub capped_exposure : Signed
  pub additional_losses : ℕ
  pub settlement_price : PricePoint
  pub reason : PositionCloseReason
  pub closed_during_liquifunding : Bool

pub data MaybeClosedPosition : Type 0 where
  stays_open : Position → MaybeClosedPosition
  to_close : ClosePositionInstructions → MaybeClosedPosition

-- `Position::direction`.
abbrev pub direction : Position → DirectionToNotional
direction p = if p.notional_size.negative then short else long
