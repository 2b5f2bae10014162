-- ===== src/Position/Settle.antt =====
-- `settle_price_exposure` of packages/perpswap/src/contracts/market/position.rs.
use levana_perps.Cosmwasm.{Cosmwasm}
use levana_perps.Number.Signed.{
  signed_mul, cmp, signed_sub, Signed, new_positive, try_into_non_negative_value,
}
use levana_perps.Number.NonZero.{non_zero_sub_signed, non_zero_add_signed}
use levana_perps.Position.State.{
  PricePoint, max_gains, to_close, stays_open, liquidated, by_liquidation, MaybeClosedPosition,
  LiquidationReason, ClosePositionInstructions, Position,
}
use levana_perps.Prelude.{
  if◌then◌else◌, Result, failed, ok, ◌>>=◌, context, gt, ℕ, Bool, true, false,
}

-- `<=` and `>=`, by `cmp`.
unfoldable pub is_at_most : Signed → Signed → Bool
unfolding cmp
is_at_most a b = elim (cmp a b) [ gt ↦ false | _ ↦ true ]

-- The instructions of a liquidation.
abbrev pub liquidation :
    Position → Signed → ℕ → PricePoint → LiquidationReason → ClosePositionInstructions
liquidation p capped losses end_price reason = record {
  position = p;
  capped_exposure = capped;
  additional_losses = losses;
  settlement_price = end_price;
  reason = by_liquidation reason;
  closed_during_liquifunding = true;
}

module _ ⦃c : Cosmwasm⦄ where
  unfoldable pub get_price_exposure : ℕ → PricePoint → Position → Result Signed
  unfolding signed_sub signed_mul
  get_price_exposure start_price end_price p = do
    price_delta ← signed_sub (new_positive end_price.price_notional) (new_positive start_price)
    signed_mul price_delta p.notional_size

  -- The position after an exposure between the bounds.
  unfoldable pub expose : Signed → Position → Result Position
  unfolding non_zero_add_signed non_zero_sub_signed
  expose exposure p = do
    active ← non_zero_add_signed p.active_collateral exposure
    counter ← non_zero_sub_signed p.counter_collateral exposure
    ok (record p { active_collateral = active; counter_collateral = counter })

  -- The end of the settlement, for an exposure and its lower bound.
  unfoldable pub settle_within :
      Signed → Signed → PricePoint → Position → Result (MaybeClosedPosition × Signed)
  unfolding is_at_most signed_sub expose
  settle_within exposure min_exposure end_price p =
      let max_exposure = new_positive p.counter_collateral in
      if is_at_most exposure min_exposure
      then (signed_sub min_exposure exposure >>= λ beyond.
          context (try_into_non_negative_value beyond) failed >>= λ losses.
          ok (to_close (liquidation p min_exposure losses end_price liquidated), min_exposure))
      else if is_at_most max_exposure exposure
      then ok (to_close (liquidation p max_exposure 0 end_price max_gains), max_exposure)
      else (expose exposure p >>= λ q. ok (stays_open q, exposure))

  unfoldable pub settle_price_exposure :
      ℕ → PricePoint → ℕ → Position → Result (MaybeClosedPosition × Signed)
  unfolding get_price_exposure signed_sub settle_within
  settle_price_exposure start_price end_price liquidation_margin p = do
    exposure ← get_price_exposure start_price end_price p
    min_exposure ← signed_sub (new_positive liquidation_margin) (new_positive p.active_collateral)
    settle_within exposure min_exposure end_price p
