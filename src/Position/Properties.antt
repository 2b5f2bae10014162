-- ===== src/Position/Properties.antt =====
-- The settlement of a position in packages/perpswap/src/contracts/market/position.rs, and the locked
-- liquidity that follows it, in contracts/market/src/state/liquidity.rs.
use levana_perps.Cosmwasm.{documented, Cosmwasm, uint256_modulus, IsDocumented, eq_documented}
use levana_perps.Liquidity.Locking.{update_locked_stats}
use levana_perps.Number.Signed.{signed_add, Signed, new_positive, neg}
use levana_perps.Number.Integers.{IsNumber}
use levana_perps.Position.Settle.{
  settle_price_exposure, settle_within, get_price_exposure, is_at_most,
}
use levana_perps.Position.State.{stays_open, MaybeClosedPosition, PricePoint, Position}
use levana_perps.Position.Outcome.{
  documented_losses, exact_exposure, least_exposure, documented_least, high-IsCapped, low-IsCapped,
  open-IsSettled, IsSettled, settled,
}
use levana_perps.Prelude.{
  Ensures-ok, ap, Bool-cases, ok, Ensures, ℕ, ◌+◌, ◌<◌, ◌≡◌, refl, inl, inr, arith,
}
use levana_perps.Funding.Parts.{up, down}
use levana_perps.Cw20.Supply.{moved}
use levana_perps.Liquidity.State.{LiquidityStats}

-- The sizes of a position, an exposure and a margin that fit the numbers.
pub record InRange (exposure : Signed) (margin : ℕ) (p : Position) : Type 0 where
  pub number : IsNumber exposure
  pub exposure_fits : margin + p.active_collateral + exposure.value < uint256_modulus
  pub collateral_fits : p.active_collateral + p.counter_collateral < uint256_modulus

documented_within :
    (exposure : Signed) (margin : ℕ) (end_price : PricePoint) (p : Position)
    → InRange exposure margin p
    → settle_within ⦃c = documented⦄ exposure
        (least_exposure margin p.active_collateral)
        end_price
        p
      ≡ ok (settled exposure margin end_price p)
unfolding settle_within
documented_within exposure margin end_price p fits =
    let low = least_exposure margin p.active_collateral in
    elim (Bool-cases (is_at_most exposure low)) [
      | inl under ↦
          rw
            (
              under,
              documented_losses low exposure fits.number (ground (arith, fits.exposure_fits)) under,
            )
            refl
      | inr within ↦ elim (Bool-cases (is_at_most (new_positive p.counter_collateral) exposure)) [
        | inl over ↦ rw (within, over) refl
        | inr inside ↦
            rw
              (
                within,
                inside,
                exact_exposure margin exposure p fits.collateral_fits fits.number within inside,
              )
              refl
      ]
    ]

settled-IsSettled :
    (exposure : Signed) (margin : ℕ) (end_price : PricePoint) (p : Position)
    → IsNumber exposure
    → IsSettled exposure margin p
        (settled exposure margin end_price p).0
        (settled exposure margin end_price p).1
settled-IsSettled exposure margin end_price p n =
    let low = least_exposure margin p.active_collateral in
    elim (Bool-cases (is_at_most exposure low)) [
      | inl under ↦ rw under (refl, refl, low-IsCapped exposure margin end_price p n under)
      | inr within ↦ elim (Bool-cases (is_at_most (new_positive p.counter_collateral) exposure)) [
        | inl over ↦
            rw (within, over) (refl, refl, high-IsCapped exposure margin end_price p n over)
        | inr inside ↦ rw (within, inside) (open-IsSettled exposure margin p n within inside)
      ]
    ]

documented_settle :
    (start_price : ℕ) (end_price : PricePoint) (margin : ℕ) (p : Position) (exposure : Signed)
    → get_price_exposure ⦃c = documented⦄ start_price end_price p ≡ ok exposure
    → InRange exposure margin p
    → (outcome : MaybeClosedPosition) × (capped : Signed) × (settle_price_exposure ⦃c = documented⦄
          start_price end_price margin p
        ≡ ok (outcome, capped))
      × IsSettled exposure margin p outcome capped
unfolding settle_price_exposure
documented_settle start_price end_price margin p exposure moved fits =
    let done = settled exposure margin end_price p in
    (
      done.0,
      done.1,
      rw
          (
            moved,
            documented_least margin p.active_collateral (omega (arith, fits.exposure_fits))
                (omega (arith, fits.exposure_fits)),
            documented_within exposure margin end_price p fits,
          )
          refl,
      settled-IsSettled exposure margin end_price p fits.number,
    )

documented_follows :
    (capped : Signed) (s : LiquidityStats)
    → Ensures
        (λ t. t.locked + up capped ≡ s.locked + down capped)
        (update_locked_stats ⦃c = documented⦄ (neg capped) s)
unfolding update_locked_stats signed_add neg
documented_follows capped s = ground arith

module _ ⦃c : Cosmwasm⦄ (doc : IsDocumented c) where
  -- For every exposure that is computed and fits the numbers, the settlement succeeds. Either the
  -- position stays open: the exposure moves between its active and its counter collateral, the
  -- active collateral stays above the margin and some counter collateral is left. Or it is to be
  -- closed: liquidated, where the capped exposure leaves the trader the margin and the losses beyond
  -- it are reported, or at its maximal gains, which are the whole counter collateral.
  pub settle_price_exposure_lem :
      (start_price : ℕ) (end_price : PricePoint) (margin : ℕ) (p : Position) (exposure : Signed)
      → get_price_exposure start_price end_price p ≡ ok exposure
      → InRange exposure margin p
      → (outcome : MaybeClosedPosition) × (capped : Signed) × (settle_price_exposure start_price
            end_price margin p
          ≡ ok (outcome, capped))
        × IsSettled exposure margin p outcome capped
  settle_price_exposure_lem = rw (eq_documented doc) documented_settle

  locked_follows :
      (capped : Signed) (s : LiquidityStats)
      → Ensures
          (λ t. t.locked + up capped ≡ s.locked + down capped)
          (update_locked_stats (neg capped) s)
  locked_follows = rw (eq_documented doc) documented_follows

  -- Where a position stays open, the update of the locked liquidity by the reported exposure moves
  -- it by as much as the settlement moved the counter collateral: what is locked for other positions
  -- stays the same.
  pub settle_locked_lem :
      (start_price : ℕ) (end_price : PricePoint) (margin : ℕ) (p q : Position)
      (exposure capped : Signed) (s : LiquidityStats) {t : LiquidityStats}
      → get_price_exposure start_price end_price p ≡ ok exposure
      → InRange exposure margin p
      → settle_price_exposure start_price end_price margin p ≡ ok (stays_open q, capped)
      → update_locked_stats (neg capped) s ≡ ok t
      → t.locked + p.counter_collateral ≡ s.locked + q.counter_collateral
  settle_locked_lem start_price end_price margin p q exposure capped s moved fits h k =
      let done = settle_price_exposure_lem start_price end_price margin p exposure moved fits in
      let outcome =
        Ensures-ok (λ r. IsSettled exposure margin p r.0 r.1)
          (settle_price_exposure start_price end_price margin p) (rw done.2 done.3) h in
      let follows = Ensures-ok _ (update_locked_stats (neg capped) s) (locked_follows capped s) k in
      omega (arith, outcome.2, ap up outcome.0, ap down outcome.0, follows)
