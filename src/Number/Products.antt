-- ===== src/Number/Products.antt =====
-- `checked_mul` and `checked_div` of packages/perpswap/src/number/ops.rs.
use levana_perps.Cosmwasm.{eq_documented, uint256_modulus, one, IsDocumented, documented, Cosmwasm}
use levana_perps.Number.Signed.{signed_div, signed_mul, Signed}
use levana_perps.Number.Integers.{IsNumber}
use levana_perps.Prelude.{
  differ, ltb, ◌==◌, if◌then◌else◌, err, divide_by_zero, overflow, ok, ℕ, ◌+◌, ◌*◌, ◌/◌, ◌≤◌, ◌<◌,
  ◌≡◌, sym, ◌∙◌, Bool, not, ◌&&◌, arith,
}
use native.Mathlib.Nat.{mul_comm}

-- The sign of a product: negative if one factor is, unless the result rounds to 0.
abbrev pub sign_of : Signed → Signed → ℕ → Bool
sign_of a b v = differ a.negative b.negative && not (v == 0)

documented_mul :
    (a b : Signed)
    → signed_mul ⦃c = documented⦄ a b ≡ (
        let v = a.value * b.value / one in
        if ltb v uint256_modulus
        then ok (record { value = v; negative = sign_of a b v })
        else err overflow)
unfolding signed_mul
documented_mul a b = ground arith

documented_div :
    (a b : Signed)
    → signed_div ⦃c = documented⦄ a b ≡ (
        let v = a.value * one / b.value in
        if b.value == 0
        then err divide_by_zero
        else if ltb v uint256_modulus
        then ok (record { value = v; negative = sign_of a b v })
        else err overflow)
unfolding signed_div
documented_div a b = ground arith

module _ ⦃c : Cosmwasm⦄ (doc : IsDocumented c) where
  -- `checked_mul` is the product of the magnitudes rounded down to 18 digits, negative exactly if one
  -- factor is and it does not round to 0, and an overflow exactly if the rounded magnitude is out of
  -- range.
  pub signed_mul_lem :
      (a b : Signed)
      → signed_mul a b ≡ (
          let v = a.value * b.value / one in
          if ltb v uint256_modulus
          then ok (record { value = v; negative = sign_of a b v })
          else err overflow)
  signed_mul_lem = rw (eq_documented doc) documented_mul

  -- `checked_div` fails on 0, and is else the quotient in the same way.
  pub signed_div_lem :
      (a b : Signed)
      → signed_div a b ≡ (
          let v = a.value * one / b.value in
          if b.value == 0
          then err divide_by_zero
          else if ltb v uint256_modulus
          then ok (record { value = v; negative = sign_of a b v })
          else err overflow)
  signed_div_lem = rw (eq_documented doc) documented_div

  -- A product that succeeds is canonical, its magnitude is the exact one rounded down by less than
  -- one unit of 18 digits, and the factors commute.
  pub signed_mul_rounds :
      (a b : Signed) {r : Signed}
      → signed_mul a b ≡ ok r
      → (r.value * one ≤ a.value * b.value)
        × (a.value * b.value < r.value * one + one)
        × IsNumber r
        × (signed_mul b a ≡ ok r)
  signed_mul_rounds a b h =
      let e = sym (signed_mul_lem a b) ∙ h in
      (
        ground arith,
        ground arith,
        ground arith,
        rw (signed_mul_lem b a) (ground (arith, mul_comm a.value b.value)),
      )
