-- ===== src/Number/Order.antt =====
-- `cmp`, `min` and `max` of packages/perpswap/src/number/ops.rs, and `checked_add_signed` of types.rs.
use levana_perps.Cosmwasm.{Cosmwasm, eq_documented, documented, IsDocumented, uint256_modulus}
use levana_perps.Number.Signed.{max_of, min_of, cmp, checked_add_signed, Signed}
use levana_perps.Number.Integers.{IsNumber, to_ℤ}
use levana_perps.Prelude.{
  leb, ltb, if◌then◌else◌, err, overflow, ok, negative_value, lt, eq, gt, ℕ, ◌+◌, ◌-◌, ◌<◌, ◌≡◌,
  ◌↔◌, ◌⊎◌, arith,
}
use levana_perps.Prelude.Int.{◌≤ℤ◌, ◌<ℤ◌}

-- `cmp`, on numbers in range whose zeros are not negative, tells the three cases of the integers
-- apart: less exactly if less, equal exactly if they are the same number.
pub cmp_lem :
    (a b : Signed)
    → IsNumber a
    → IsNumber b
    → ((cmp a b ≡ lt) ↔ (to_ℤ a <ℤ to_ℤ b))
      × ((cmp a b ≡ eq) ↔ (a ≡ b))
      × ((cmp a b ≡ gt) ↔ (to_ℤ b <ℤ to_ℤ a))
unfolding cmp
cmp_lem a b p q = ground arith

-- `min` is one of its arguments and below both, and `max` is one of them and above both.
pub min_max_lem :
    (a b : Signed)
    → IsNumber a
    → IsNumber b
    → ((min_of a b ≡ a) ⊎ (min_of a b ≡ b))
      × (to_ℤ (min_of a b) ≤ℤ to_ℤ a)
      × (to_ℤ (min_of a b) ≤ℤ to_ℤ b)
      × ((max_of a b ≡ a) ⊎ (max_of a b ≡ b))
      × (to_ℤ a ≤ℤ to_ℤ (max_of a b))
      × (to_ℤ b ≤ℤ to_ℤ (max_of a b))
unfolding min_of max_of
min_max_lem a b p q = ground arith

module _ ⦃c : Cosmwasm⦄ (doc : IsDocumented c) where
  documented_add_signed :
      (a : ℕ) (b : Signed)
      → a < uint256_modulus
      → IsNumber b
      → checked_add_signed ⦃c = documented⦄ a b ≡ (
          if b.negative
          then (if leb b.value a then ok (a - b.value) else err negative_value)
          else (if ltb (a + b.value) uint256_modulus then ok (a + b.value) else err overflow))
  unfolding checked_add_signed
  documented_add_signed a b h q = ground arith

  -- Adding a signed value to an unsigned one in range gives the exact sum; it is refused as negative
  -- exactly if it would be below 0, and overflows exactly if it is out of range.
  pub checked_add_signed_lem :
      (a : ℕ) (b : Signed)
      → a < uint256_modulus
      → IsNumber b
      → checked_add_signed a b ≡ (
          if b.negative
          then (if leb b.value a then ok (a - b.value) else err negative_value)
          else (if ltb (a + b.value) uint256_modulus then ok (a + b.value) else err overflow))
  checked_add_signed_lem = rw (eq_documented doc) documented_add_signed
