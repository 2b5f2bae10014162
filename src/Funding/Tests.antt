-- ===== src/Funding/Tests.antt =====
-- A run of the series at concrete values, and the theorems applied there.
use levana_perps.Cosmwasm.{documented-IsDocumented, documented}
use levana_perps.Number.Signed.{new_negative, signed_add, new_positive, signed_mul}
use levana_perps.Prelude.{Ensures, ◌>>=◌, ok, ◌≡◌, refl, [], ◌∷◌, arith}
use levana_perps.Funding.Series.{
  sum_between, number_of, append, elapsed, save_point, sum_until, try_load_last, DataSeries,
  prefix_at,
}
use levana_perps.Funding.Integral.{IsSeries}
use levana_perps.Funding.Properties.{sum_between_lem, append-IsSeries}
use levana_perps.Prelude.Int.{pos, ◌-ℤ◌}
use levana_perps.Number.Integers.{to_ℤ}

-- From 100 on the value is 3, from 110 on -5 and from 130 on 2.
abbrev rates : DataSeries
rates =
    (130, record { prefix_sum = new_negative 70; value = new_positive 2 })
    ∷ (110, record { prefix_sum = new_positive 30; value = new_negative 5 })
    ∷ (100, record { prefix_sum = new_positive 0; value = new_positive 3 })
    ∷ []

appended :
    (append ⦃c = documented⦄ 100 (new_positive 3) [] >>= λ a.
    append ⦃c = documented⦄ 110 (new_negative 5) a >>= λ b.
    append ⦃c = documented⦄ 130 (new_positive 2) b)
    ≡ ok rates
unfolding append prefix_at try_load_last save_point sum_until elapsed number_of signed_mul
    signed_add
appended = refl

rates-IsSeries : IsSeries rates
rates-IsSeries = ((omega arith, refl), ((omega arith, refl), (tt, tt)))

append-IsSeries_example : Ensures IsSeries (append ⦃c = documented⦄ 150 (new_positive 1) rates)
append-IsSeries_example =
    append-IsSeries ⦃c = documented⦄ documented-IsDocumented 150 (new_positive 1) rates
      rates-IsSeries

-- From 105 to 140: 5 times 3, 20 times -5 and 10 times 2.
sum_between_lem_example :
    Ensures (λ r. to_ℤ r ≡ pos 35 -ℤ pos 100) (sum_between ⦃c = documented⦄ 105 140 rates)
sum_between_lem_example =
    sum_between_lem ⦃c = documented⦄ documented-IsDocumented 105 140 rates (omega arith)
      rates-IsSeries
