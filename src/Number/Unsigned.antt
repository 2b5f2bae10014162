-- ===== src/Number/Unsigned.antt =====
-- `UnsignedDecimal` and the methods of `Collateral`, in packages/perpswap/src/number/types.rs, and
-- `validate_ratio` of packages/perpswap/src/number/ratio.rs. A value is its atomics, and `/` panics.
use levana_perps.Cosmwasm.{Cosmwasm, one}
use levana_perps.Prelude.{
  ◌>>=◌, ◌>>◌, leb, ltb, if◌then◌else◌, Result, overflow, ensure, ok, context, panic, failed, ℕ,
  ◌^◌, Bool, true, ◌&&◌,
}

-- The atomics of `Decimal256::from_ratio(1u32, 10_000_000u32)`.
abbrev pub epsilon : ℕ
epsilon = 10 ^ 11

-- `std::ops::Bound`.
pub data Bound : Type 0 where
  included excluded : ℕ → Bound
  unbounded : Bound

abbrev above : Bound → ℕ → Bool
above (included lower) value = leb lower value
above (excluded lower) value = ltb lower value
above unbounded value = true

abbrev under : Bound → ℕ → Bool
under (included upper) value = leb value upper
under (excluded upper) value = ltb value upper
under unbounded value = true

pub validate_ratio : ℕ → Bound → Bound → Result (Unit {0})
validate_ratio value lower upper = ensure (above lower value && under upper value) failed

-- `InclusiveRatio::new`.
pub inclusive_ratio : ℕ → Result ℕ
unfolding validate_ratio
inclusive_ratio value = do validate_ratio value (included 0) (included one); ok value

module _ ⦃c : Cosmwasm⦄ where
  unfoldable pub checked_add : ℕ → ℕ → Result ℕ
  checked_add a b = context (c.dec_checked_add a b) overflow

  unfoldable pub checked_sub : ℕ → ℕ → Result ℕ
  checked_sub a b = context (c.dec_checked_sub a b) overflow

  unfoldable pub checked_mul_dec : ℕ → ℕ → Result ℕ
  checked_mul_dec a b = context (c.dec_checked_mul a b) overflow

  unfoldable pub checked_div_dec : ℕ → ℕ → Result ℕ
  checked_div_dec a b = context (c.dec_checked_div a b) failed

  -- `div_non_zero_dec` and `div_non_zero`.
  unfoldable pub div_non_zero : ℕ → ℕ → Result ℕ
  div_non_zero a b = context (c.dec_div a b) panic

  unfoldable pub diff : ℕ → ℕ → Result ℕ
  diff a b =
      if ltb b a
      then context (c.dec_checked_sub a b) panic
      else context (c.dec_checked_sub b a) panic

  unfoldable pub approx_eq : ℕ → ℕ → Result Bool
  unfolding diff
  approx_eq a b = do d ← diff a b; ok (ltb d epsilon)
