-- ===== src/Number/Tests.antt =====
-- Runs of the numbers at concrete values, and the theorems applied there.
use levana_perps.Cosmwasm.{documented, one, documented-IsDocumented}
use levana_perps.Number.Signed.{
  signed_add, checked_add_signed, signed_mul, new_positive, cmp, signed_div, new_negative,
  signed_sub, Signed,
}
use levana_perps.Number.Products.{signed_div_lem, signed_mul_lem}
use levana_perps.Number.NonZero.{inverse}
use levana_perps.Number.Order.{cmp_lem, checked_add_signed_lem}
use levana_perps.Number.Integers.{
  of_ℤ, in_range, signed_add_lem, signed_sub_lem, of_ℤ-to_ℤ, IsNumber, to_ℤ,
}
use levana_perps.Number.Inverse.{reciprocal, inverse_lem}
use levana_perps.Prelude.Int.{◌-ℤ◌, ◌<ℤ◌, ◌+ℤ◌}
use levana_perps.Prelude.{
  ok, panic, err, divide_by_zero, negative_value, lt, eq, gt, ◌+◌, ◌*◌, ◌≤◌, ◌<◌, ◌≡◌, refl, ◌↔◌,
  arith,
}

abbrev minus_five : Signed
minus_five = new_negative 5

abbrev three : Signed
three = new_positive 3

minus_five-IsNumber : IsNumber minus_five
minus_five-IsNumber = record { fits = omega arith; canonical = λ e. ground arith }

three-IsNumber : IsNumber three
three-IsNumber = record { fits = omega arith; canonical = λ e. refl }

signed_add_lem_example :
    signed_add ⦃c = documented⦄ minus_five three ≡ in_range (to_ℤ minus_five +ℤ to_ℤ three)
signed_add_lem_example =
    signed_add_lem ⦃c = documented⦄ documented-IsDocumented minus_five three minus_five-IsNumber
      three-IsNumber

signed_sub_lem_example :
    signed_sub ⦃c = documented⦄ minus_five three ≡ in_range (to_ℤ minus_five -ℤ to_ℤ three)
signed_sub_lem_example =
    signed_sub_lem ⦃c = documented⦄ documented-IsDocumented minus_five three minus_five-IsNumber
      three-IsNumber

-- -5 + 3 in atomics.
sum_run : signed_add ⦃c = documented⦄ minus_five three ≡ ok (new_negative 2)
unfolding signed_add
sum_run = refl

checked_add_signed_lem_example :
    checked_add_signed ⦃c = documented⦄ 3 minus_five ≡ err negative_value
checked_add_signed_lem_example =
    checked_add_signed_lem ⦃c = documented⦄ documented-IsDocumented 3 minus_five (omega arith)
      minus_five-IsNumber

signed_mul_lem_example : signed_mul ⦃c = documented⦄ minus_five (new_positive one) ≡ ok minus_five
signed_mul_lem_example =
    signed_mul_lem ⦃c = documented⦄ documented-IsDocumented minus_five (new_positive one)

signed_div_lem_example :
    signed_div ⦃c = documented⦄ minus_five (new_positive 0) ≡ err divide_by_zero
signed_div_lem_example =
    signed_div_lem ⦃c = documented⦄ documented-IsDocumented minus_five (new_positive 0)

cmp_lem_example :
    ((cmp minus_five three ≡ lt) ↔ (to_ℤ minus_five <ℤ to_ℤ three))
    × ((cmp minus_five three ≡ eq) ↔ (minus_five ≡ three))
    × ((cmp minus_five three ≡ gt) ↔ (to_ℤ three <ℤ to_ℤ minus_five))
cmp_lem_example = cmp_lem minus_five three minus_five-IsNumber three-IsNumber

of_ℤ-to_ℤ_example : of_ℤ (to_ℤ minus_five) ≡ minus_five
of_ℤ-to_ℤ_example = of_ℤ-to_ℤ minus_five minus_five-IsNumber

inverse_lem_example :
    (inverse ⦃c = documented⦄ (2 * one * one) ≡ err panic)
    × (reciprocal (2 * one * one) * (2 * one * one) ≤ one * one)
    × (one * one < reciprocal (2 * one * one) * (2 * one * one) + 2 * one * one)
inverse_lem_example =
    inverse_lem ⦃c = documented⦄ documented-IsDocumented (2 * one * one) (omega arith)
