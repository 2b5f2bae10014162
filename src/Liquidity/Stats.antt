-- ===== src/Liquidity/Stats.antt =====
-- `LiquidityStats` of packages/perpswap/src/contracts/market/liquidity.rs: the value of LP tokens in
-- collateral and back.
use levana_perps.Cosmwasm.{Cosmwasm}
use levana_perps.Liquidity.State.{LiquidityStats}
use levana_perps.Number.NonZero.{non_zero}
use levana_perps.Number.Unsigned.{checked_add, approx_eq}
use levana_perps.Prelude.{
  if◌then◌else◌, ◌==◌, Result, ok, ensure, context, ◌>>◌, failed, ◌>>=◌, overflow, ℕ, not,
}

module _ ⦃c : Cosmwasm⦄ where
  unfoldable pub total_collateral : LiquidityStats → Result ℕ
  unfolding checked_add
  total_collateral s = checked_add s.locked s.unlocked

  unfoldable pub total_tokens : LiquidityStats → Result ℕ
  unfolding checked_add
  total_tokens s = checked_add s.total_lp s.total_xlp

  -- The share of a total, `total * part / whole` in `Decimal256` steps.
  unfoldable pub share : ℕ → ℕ → ℕ → Result ℕ
  share total part whole = do
    product ← context (c.dec_checked_mul total part) overflow
    context (c.dec_checked_div product whole) overflow

  unfoldable pub lp_to_collateral : LiquidityStats → ℕ → Result ℕ
  unfolding total_collateral total_tokens approx_eq share
  lp_to_collateral s lp =
      if lp == 0
      then ok 0
      else (total_collateral s >>= λ collateral. approx_eq collateral 0 >>= λ none_left.
          ensure (not none_left) failed
          >> (total_tokens s >>= λ tokens. share collateral lp tokens))

  unfoldable pub lp_to_collateral_non_zero : LiquidityStats → ℕ → Result ℕ
  unfolding lp_to_collateral non_zero
  lp_to_collateral_non_zero s lp = do
    collateral ← lp_to_collateral s lp
    context (non_zero collateral) failed

  unfoldable pub collateral_to_lp : LiquidityStats → ℕ → Result ℕ
  unfolding total_collateral total_tokens share non_zero
  collateral_to_lp s amount = do
    collateral ← total_collateral s
    lp ←
        if collateral == 0
        then ok amount
        else total_tokens s >>= λ tokens. share tokens amount collateral
    context (non_zero lp) failed
