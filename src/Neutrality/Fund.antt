-- ===== src/Neutrality/Fund.antt =====
-- The fund of contracts/market/src/state/delta_neutrality_fee.rs under the passes.
use levana_perps.Cosmwasm.{IsDocumented, Cosmwasm, documented, one, eq_documented}
use levana_perps.Liquidity.Storage.{notional_to_collateral, net_notional}
use levana_perps.Number.Signed.{
  is_less, signed_add, neg, Signed, checked_add_signed, new_positive, signed_mul, cmp, is_negative,
}
use levana_perps.Number.NonZero.{non_zero}
use levana_perps.Prelude.{
  if◌then◌else◌, leb, Ensures, Ensures-map, Ensures-then, Ensures-bind, Ensures-if, ℕ, ◌+◌, ◌≤◌,
  ◌≡◌, refl, subst, ◌∙◌, Option, none, some, arith,
}
use levana_perps.Neutrality.Passes.{
  update_inner, try_into_non_zero, cap_fee, run_passes, limit_payment, MultiPass, fee_amount,
  in_collateral, funded_amount, NeutralityConfig, slippage_fundedness, new_multi_pass,
}
use levana_perps.Neutrality.Charge.{calc_delta_neutrality_fee}
use levana_perps.Funding.Parts.{down, signed_add_parts, up}
use levana_perps.Liquidity.State.{Env}

within_fund :
    (fund : ℕ) (n : Signed)
    → down (if is_less (new_positive fund) (neg n) then neg (new_positive fund) else n) ≤ fund
unfolding is_less cmp neg
within_fund fund n = ground arith

cap_fee-down : (factor : Option ℕ) (amount : Signed) → down (cap_fee factor amount).0 ≤ down amount
unfolding cap_fee try_into_non_zero non_zero
cap_fee-down none amount = omega arith
cap_fee-down (some cap) amount = ground arith

documented_fund :
    (a : ℕ) (b : Signed)
    → Ensures (λ r. r + down b ≡ a + up b) (checked_add_signed ⦃c = documented⦄ a b)
unfolding checked_add_signed signed_add
documented_fund a b = ground arith

-- The fund less the payment is not negative.
abbrev pub IsCovered : ℕ → Signed → Type 0
IsCovered fund fees = down fees ≤ fund + up fees

pub IsCovered-down : (fund : ℕ) (fees : Signed) → IsCovered fund fees → down fees ≤ fund
IsCovered-down fund fees h = ground (arith, h)

module _ ⦃c : Cosmwasm⦄ (doc : IsDocumented c) where
  pub checked_add_signed_parts :
      (a : ℕ) (b : Signed) → Ensures (λ r. r + down b ≡ a + up b) (checked_add_signed a b)
  checked_add_signed_parts = rw (eq_documented doc) documented_fund

  limit_payment-down :
      (fund slippage : ℕ) (amount : Signed)
      → Ensures (λ a. down a ≤ fund) (limit_payment fund slippage amount)
  unfolding limit_payment
  limit_payment-down fund slippage amount =
      let Q : Signed → Type 0 = λ a. down a ≤ fund in
      Ensures-then Q (slippage_fundedness fund slippage) _ λ fundedness _.
        Ensures-then Q
          (signed_mul amount (new_positive (if leb fundedness one then fundedness else one))) _
          λ n _. within_fund fund n

  funded_amount-down :
      (f : NeutralityConfig) (e : Env) (net : Signed) (fund : ℕ) (amount : Signed)
      → Ensures (λ a. down a ≤ fund) (funded_amount f e net fund amount)
  unfolding funded_amount
  funded_amount-down f e net fund amount =
      let Q : Signed → Type 0 = λ a. down a ≤ fund in
      Ensures-if Q (is_negative amount) _ _
        (λ _. Ensures-then Q (fee_amount f net (neg net)) _ λ notional _.
          Ensures-then Q (notional_to_collateral e notional.value) _
            λ slippage _. limit_payment-down fund slippage amount)
        λ owed. rw owed (omega arith)

  -- A pass keeps what the fund held before, and the fund covers what the passes pay.
  update_inner-IsCovered :
      (f : NeutralityConfig) (e : Env) (delta : Signed) (m : MultiPass)
      → Ensures
          (λ n.
            (n.total_in_fund_before_calc ≡ m.total_in_fund_before_calc)
            × IsCovered n.total_in_fund_before_calc n.fees)
          (update_inner f e delta m)
  unfolding update_inner
  update_inner-IsCovered f e delta m =
      let fund = m.total_in_fund_before_calc in
      let Q : MultiPass → Type 0 =
        λ n. (n.total_in_fund_before_calc ≡ fund) × IsCovered n.total_in_fund_before_calc n.fees in
      Ensures-bind _ Q (checked_add_signed fund m.fees) _ (checked_add_signed_parts fund m.fees)
        λ so_far held. Ensures-then Q (fee_amount f m.net_notional delta) _ λ notional _.
          Ensures-then Q (in_collateral e notional) _ λ amount _.
            Ensures-bind _ Q (funded_amount f e m.net_notional so_far amount) _
              (funded_amount-down f e m.net_notional so_far amount)
              λ funded within.
                let capped = (cap_fee m.liquidation_margin_factor funded).0 in
                Ensures-bind _ Q (signed_add m.fees capped) _ (signed_add_parts doc m.fees capped)
                  λ fees sum. Ensures-then Q (signed_add m.net_notional delta) _ λ net _. (
                    refl,
                    omega
                        (arith, held, within, sum, cap_fee-down m.liquidation_margin_factor funded),
                  )

  pub run_passes-IsCovered :
      (f : NeutralityConfig) (e : Env) (m : MultiPass)
      → Ensures
          (λ n.
            (n.total_in_fund_before_calc ≡ m.total_in_fund_before_calc)
            × IsCovered n.total_in_fund_before_calc n.fees)
          (run_passes f e m)
  unfolding run_passes
  run_passes-IsCovered f e m =
      let fund = m.total_in_fund_before_calc in
      let Q : MultiPass → Type 0 =
        λ n. (n.total_in_fund_before_calc ≡ fund) × IsCovered n.total_in_fund_before_calc n.fees in
      Ensures-then Q (signed_add m.net_notional m.delta_notional) _ λ after _.
        Ensures-then Q (signed_mul m.net_notional after) _ λ product _.
          Ensures-if Q (is_negative product) _ _
            (λ _.
              Ensures-bind _ Q (update_inner f e (neg m.net_notional) m) _
                (update_inner-IsCovered f e (neg m.net_notional) m)
                λ m1 first. Ensures-then Q (signed_add m.delta_notional m.net_notional) _ λ rest _.
                  Ensures-map _ Q (update_inner f e rest m1) (update_inner-IsCovered f e rest m1)
                    λ n second. (second.0 ∙ first.0, second.1))
            λ _. update_inner-IsCovered f e m.delta_notional m

  -- A trader never receives more from the fund than it holds.
  pub calc_delta_neutrality_fee_lem :
      (f : NeutralityConfig) (e : Env) (fund : ℕ) (notional_delta : Signed) (factor : Option ℕ)
      → Ensures (λ fee. down fee ≤ fund) (calc_delta_neutrality_fee f e fund notional_delta factor)
  unfolding calc_delta_neutrality_fee
  calc_delta_neutrality_fee_lem f e fund notional_delta factor =
      let Q : Signed → Type 0 = λ fee. down fee ≤ fund in
      Ensures-then Q (net_notional e) _ λ net _.
        let m = new_multi_pass fund net notional_delta factor in
        Ensures-bind _ Q (run_passes f e m) _ (run_passes-IsCovered f e m)
          λ n paid. IsCovered-down fund n.fees (subst (λ held. IsCovered held n.fees) paid.0 paid.1)
