-- ===== src/Position/Outcome.antt =====
-- The outcomes of `settle_price_exposure` of packages/perpswap/src/contracts/market/position.rs for every
-- exposure.
use levana_perps.Cosmwasm.{uint256_modulus, documented}
use levana_perps.Number.Signed.{
  cmp, neg, Signed, new_negative, signed_add, new_positive, signed_sub,
}
use levana_perps.Number.NonZero.{
  non_zero_add_signed, try_from_signed, non_zero, non_zero_sub_signed,
}
use levana_perps.Number.Integers.{IsNumber}
use levana_perps.Position.Settle.{expose, liquidation, is_at_most}
use levana_perps.Position.State.{
  ClosePositionInstructions, by_liquidation, MaybeClosedPosition, stays_open, liquidated, to_close,
  PricePoint, max_gains, Position,
}
use levana_perps.Prelude.{
  ◌≤◌, refl, ◌⊎◌, inl, inr, if◌then◌else◌, leb, ok, ℕ, ◌+◌, ◌-◌, ◌<◌, ◌≡◌, true, false, arith,
}
use levana_perps.Funding.Parts.{up, down}

-- The least exposure, at which the trader is left with the margin.
abbrev pub least_exposure : ℕ → ℕ → Signed
least_exposure margin active =
    if leb active margin then new_positive (margin - active) else new_negative (active - margin)

abbrev pub losses_beyond : Signed → Signed → ℕ
losses_beyond low exposure = (up low + down exposure) - (down low + up exposure)

abbrev pub exposed : Signed → Position → Position
exposed exposure p = record p {
  active_collateral = p.active_collateral + up exposure - down exposure;
  counter_collateral = p.counter_collateral + down exposure - up exposure;
}

-- What the settlement returns.
abbrev pub settled : Signed → ℕ → PricePoint → Position → MaybeClosedPosition × Signed
settled exposure margin end_price p =
    let low = least_exposure margin p.active_collateral in
    if is_at_most exposure low
    then (to_close (liquidation p low (losses_beyond low exposure) end_price liquidated), low)
    else if is_at_most (new_positive p.counter_collateral) exposure
    then (
      to_close (liquidation p (new_positive p.counter_collateral) 0 end_price max_gains),
      new_positive p.counter_collateral,
    )
    else (stays_open (exposed exposure p), exposure)

pub documented_least :
    (margin active : ℕ)
    → margin < uint256_modulus
    → active < uint256_modulus
    → signed_sub ⦃c = documented⦄ (new_positive margin) (new_positive active)
      ≡ ok (least_exposure margin active)
unfolding signed_sub signed_add neg
documented_least margin active m a = ground arith

pub documented_losses :
    (low exposure : Signed)
    → IsNumber exposure
    → low.value + exposure.value < uint256_modulus
    → is_at_most exposure low ≡ true
    → signed_sub ⦃c = documented⦄ low exposure ≡ ok (new_positive (losses_beyond low exposure))
unfolding signed_sub signed_add neg is_at_most cmp
documented_losses low exposure n fits below_low = ground arith

pub exact_exposure :
    (margin : ℕ) (exposure : Signed) (p : Position)
    → p.active_collateral + p.counter_collateral < uint256_modulus
    → IsNumber exposure
    → is_at_most exposure (least_exposure margin p.active_collateral) ≡ false
    → is_at_most (new_positive p.counter_collateral) exposure ≡ false
    → expose ⦃c = documented⦄ exposure p ≡ ok (exposed exposure p)
unfolding expose non_zero_add_signed non_zero_sub_signed try_from_signed non_zero signed_add neg
    is_at_most cmp
exact_exposure margin exposure p fits n low high = ground arith

-- How the exposure is capped where the position is closed: at the margin for the trader, with the
-- losses beyond it, or at the whole counter collateral.
abbrev pub IsCapped : Signed → ℕ → Position → ClosePositionInstructions → Type 0
IsCapped exposure margin p i =
    ((i.reason ≡ by_liquidation liquidated)
      × (p.active_collateral + up i.capped_exposure ≡ margin + down i.capped_exposure)
      × (up exposure + down i.capped_exposure + i.additional_losses
          ≡ down exposure + up i.capped_exposure))
    ⊎ ((i.reason ≡ by_liquidation max_gains)
        × (i.capped_exposure ≡ new_positive p.counter_collateral)
        × (i.additional_losses ≡ 0)
        × (p.counter_collateral + down exposure ≤ up exposure))

-- What holds of an outcome and of the exposure that it reports.
abbrev pub IsSettled : Signed → ℕ → Position → MaybeClosedPosition → Signed → Type 0
IsSettled exposure margin p (stays_open q) capped =
    (capped ≡ exposure)
    × (q.active_collateral + down exposure ≡ p.active_collateral + up exposure)
    × (q.counter_collateral + up exposure ≡ p.counter_collateral + down exposure)
    × (margin < q.active_collateral)
    × (0 < q.counter_collateral)
IsSettled exposure margin p (to_close i) capped =
    (capped ≡ i.capped_exposure) × (i.position ≡ p) × IsCapped exposure margin p i

pub open-IsSettled :
    (exposure : Signed) (margin : ℕ) (p : Position)
    → IsNumber exposure
    → is_at_most exposure (least_exposure margin p.active_collateral) ≡ false
    → is_at_most (new_positive p.counter_collateral) exposure ≡ false
    → IsSettled exposure margin p (stays_open (exposed exposure p)) exposure
unfolding is_at_most cmp
open-IsSettled exposure margin p n low high =
    (refl, ground arith, ground arith, ground arith, ground arith)

pub low-IsCapped :
    (exposure : Signed) (margin : ℕ) (end_price : PricePoint) (p : Position)
    → IsNumber exposure
    → is_at_most exposure (least_exposure margin p.active_collateral) ≡ true
    → IsCapped exposure margin p (
        liquidation p
          (least_exposure margin p.active_collateral)
          (losses_beyond (least_exposure margin p.active_collateral) exposure)
          end_price
          liquidated)
unfolding is_at_most cmp
low-IsCapped exposure margin end_price p n low = inl (refl, ground arith, ground arith)

pub high-IsCapped :
    (exposure : Signed) (margin : ℕ) (end_price : PricePoint) (p : Position)
    → IsNumber exposure
    → is_at_most (new_positive p.counter_collateral) exposure ≡ true
    → IsCapped exposure margin p
        (liquidation p (new_positive p.counter_collateral) 0 end_price max_gains)
unfolding is_at_most cmp
high-IsCapped exposure margin end_price p n high = inr (refl, refl, refl, ground arith)
