-- ===== src/Neutrality/Amount.antt =====
-- `calculate_delta_neutrality_fee_amount` of contracts/market/src/state/delta_neutrality_fee.rs.
use levana_perps.Cosmwasm.{Cosmwasm, one}
use levana_perps.Liquidity.Storage.{net_notional}
use levana_perps.Number.Signed.{
  new_positive, max_of, neg, signed_add, signed_sub, signed_div, min_of, signed_mul, Signed,
}
use levana_perps.Prelude.{◌>>=◌, Result, ◌*◌}

-- `Number::two`.
abbrev pub two : Signed
two = new_positive (2 * one)

module _ ⦃c : Cosmwasm⦄ where
  -- The part of a change beyond a cap: `limit` is `min` with the low cap or `max` with the high one.
  unfoldable pub delta_at_cap : (Signed → Signed) → Signed → Signed → Result Signed
  unfolding signed_add signed_sub
  delta_at_cap limit net_notional delta_notional = do
    after ← signed_add net_notional delta_notional
    signed_sub (limit after) (limit net_notional)

  -- The fee of the part within the caps.
  unfoldable pub uncapped_amount : Signed → Signed → Signed → Result Signed
  unfolding signed_mul signed_add signed_div
  uncapped_amount sensitivity net_notional_cap delta_uncapped = do
    square ← signed_mul delta_uncapped delta_uncapped
    twice ← signed_mul two delta_uncapped
    cross ← signed_mul twice net_notional_cap
    numerator ← signed_add square cross
    denominator ← signed_mul two sensitivity
    signed_div numerator denominator

  unfoldable pub calculate_delta_neutrality_fee_amount :
      Signed → Signed → Signed → Signed → Result Signed
  unfolding delta_at_cap uncapped_amount signed_mul signed_add signed_sub neg min_of max_of
  calculate_delta_neutrality_fee_amount cap sensitivity net_notional delta_notional = do
    notional_low_cap ← signed_mul (neg cap) sensitivity
    notional_high_cap ← signed_mul cap sensitivity
    at_low_cap ← delta_at_cap (λ x. min_of x notional_low_cap) net_notional delta_notional
    at_high_cap ← delta_at_cap (λ x. max_of x notional_high_cap) net_notional delta_notional
    above_low ← signed_sub delta_notional at_low_cap
    uncapped ← signed_sub above_low at_high_cap
    low_fee ← signed_mul at_low_cap (neg cap)
    high_fee ← signed_mul at_high_cap cap
    capped_fee ← signed_add low_fee high_fee
    let net_notional_cap = max_of (min_of net_notional notional_high_cap) notional_low_cap
    amount ← uncapped_amount sensitivity net_notional_cap uncapped
    signed_add capped_fee amount
