-- ===== src/Funding/Parts.antt =====
-- The positive and the negative part of a number, and the parts of the results of
-- packages/perpswap/src/number/ops.rs.
use levana_perps.Cosmwasm.{eq_documented, IsDocumented, Cosmwasm, documented, one}
use levana_perps.Number.Signed.{new_positive, Signed, signed_add, neg, signed_mul, signed_sub}
use levana_perps.Prelude.{
  leb→le, leb, Bool-cases, Ensures-bind, Ensures-map, ◌-◌, ◌/◌, ◌≤◌, ap, ◌∙◌, inl, inr,
  if◌then◌else◌, Ensures, ℕ, ◌+◌, ◌*◌, ◌≡◌, arith,
}
use levana_perps.Funding.Series.{sum_until, elapsed, DataPoint, number_of}
use native.Mathlib.Nat.{mul-div_cancel}

abbrev pub up : Signed → ℕ
up a = if a.negative then 0 else a.value

abbrev pub down : Signed → ℕ
down a = if a.negative then a.value else 0

documented_add_parts :
    (a b : Signed)
    → Ensures (λ r. up r + down a + down b ≡ down r + up a + up b) (signed_add ⦃c = documented⦄ a b)
unfolding signed_add
documented_add_parts a b = ground arith

documented_sub_parts :
    (a b : Signed)
    → Ensures (λ r. up r + down a + up b ≡ down r + up a + down b) (signed_sub ⦃c = documented⦄ a b)
unfolding signed_sub signed_add neg
documented_sub_parts a b = ground arith

documented_number :
    (n : ℕ) → Ensures (λ r. r ≡ new_positive (n * one)) (number_of ⦃c = documented⦄ n)
unfolding number_of
documented_number n = ground arith

exact_product : (x n : ℕ) → x * (n * one) / one ≡ x * n
exact_product x n =
    let regroup : x * (n * one) ≡ (x * n) * one = omega arith in
    ap (λ m. m / one) regroup ∙ mul-div_cancel (x * n) (omega arith)

documented_times :
    (a : Signed) (n : ℕ)
    → Ensures
        (λ r. (up r ≡ up a * n) × (down r ≡ down a * n))
        (signed_mul ⦃c = documented⦄ a (new_positive (n * one)))
unfolding signed_mul
documented_times a n = ground (arith, exact_product a.value n)

module _ ⦃c : Cosmwasm⦄ (doc : IsDocumented c) where
  pub signed_add_parts :
      (a b : Signed) → Ensures (λ r. up r + down a + down b ≡ down r + up a + up b) (signed_add a b)
  signed_add_parts = rw (eq_documented doc) documented_add_parts

  pub signed_sub_parts :
      (a b : Signed) → Ensures (λ r. up r + down a + up b ≡ down r + up a + down b) (signed_sub a b)
  signed_sub_parts = rw (eq_documented doc) documented_sub_parts

  number_lem : (n : ℕ) → Ensures (λ r. r ≡ new_positive (n * one)) (number_of n)
  number_lem = rw (eq_documented doc) documented_number

  times_parts :
      (a : Signed) (n : ℕ)
      → Ensures
          (λ r. (up r ≡ up a * n) × (down r ≡ down a * n))
          (signed_mul a (new_positive (n * one)))
  times_parts = rw (eq_documented doc) documented_times

  -- The sum up to a time is the sum of the point and its value for each nanosecond since.
  pub sum_until_parts :
      (time t : ℕ) (p : DataPoint)
      → Ensures
          (λ r.
            (t ≤ time)
            × (up r + down p.prefix_sum + down p.value * (time - t)
                ≡ down r + up p.prefix_sum + up p.value * (time - t)))
          (sum_until time (t, p))
  unfolding sum_until elapsed
  sum_until_parts time t p =
      let Q : Signed → Type 0 = λ r.
        (t ≤ time)
        × (up r + down p.prefix_sum + down p.value * (time - t)
            ≡ down r + up p.prefix_sum + up p.value * (time - t)) in
      elim (Bool-cases (leb t time)) [
        | inl late ↦ rw late (
            Ensures-bind _ Q (number_of (time - t)) _ (number_lem (time - t)) λ number is_number.
              rw is_number (
                Ensures-bind _ Q (signed_mul p.value (new_positive ((time - t) * one))) _
                  (times_parts p.value (time - t))
                  λ grown parts.
                    Ensures-map _ Q (signed_add p.prefix_sum grown)
                      (signed_add_parts p.prefix_sum grown)
                      λ r e. (leb→le t time late, omega (arith, e, parts))))
        | inr early ↦ rw early tt
      ]
