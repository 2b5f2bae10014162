-- ===== src/Vault/Lending.antt =====
-- `execute_redistribute_funds` of contracts/vault/src/execute.rs: what it sends.
use levana_perps.Prelude.Dict.{size}
use levana_perps.Vault.Sharing.{uint128_add_ok}
use levana_perps.Cosmwasm.{IsDocumented, eq_documented, Cosmwasm, documented}
use levana_perps.Vault.State.{
  withdraw_liquidity, deposit_liquidity, bank_send, cw20_transfer, UsdcAsset, native,
  market_claim_yield, cw20, Message,
}
use levana_perps.Prelude.Dict.{sum-save, may_load, Dict}
use levana_perps.Prelude.{
  Bool-cases, ◌<◌, inl, inr, ◌==◌, if◌then◌else◌, ltb, Ensures-map, Ensures-if, unwrap_or, Ensures,
  Ensures-then, Ensures-bind, panic, context, ok, ℕ, ◌+◌, ◌-◌, ◌*◌, ◌/◌, ◌≤◌, ◌≡◌, refl, List, [],
  ◌∷◌, ◌++◌, arith,
}
use levana_perps.Vault.Books.{or_zero-weight, shares}
use levana_perps.Vault.Execute.{u16_modulus, allocate, allot, send_rest, sum_bps}
use package.native.Mathlib.Nat.{div-mul-le_self, lt-div-mul-add}

-- What messages take from the vault.
abbrev pub spent : List Message → ℕ
spent [] = 0
spent (deposit_liquidity asset market amount ∷ rest) = amount + spent rest
spent (withdraw_liquidity market lp_amount ∷ rest) = spent rest
spent (market_claim_yield market ∷ rest) = spent rest
spent (bank_send to_address denom amount ∷ rest) = amount + spent rest
spent (cw20_transfer token recipient amount ∷ rest) = amount + spent rest

-- What the allocations get, rounded down.
abbrev pub portions : ℕ → ℕ → Dict ℕ → ℕ
portions excess total [] = 0
portions excess total ((market, bps) ∷ rest) = excess * bps / total + portions excess total rest

pub portions_floor :
    (excess total : ℕ) (allocations : Dict ℕ)
    → portions excess total allocations * total ≤ excess * shares allocations
portions_floor excess total [] = omega arith
portions_floor excess total ((market, bps) ∷ rest) =
    let share = excess * bps / total in
    let floor : share * total ≤ excess * bps = div-mul-le_self (excess * bps) total in
    omega (arith, floor, portions_floor excess total rest)

pub portions_ceiling :
    (excess total : ℕ) (allocations : Dict ℕ)
    → 0 < total
    → excess * shares allocations ≤ (portions excess total allocations + size allocations) * total
portions_ceiling excess total [] some_total = omega arith
portions_ceiling excess total ((market, bps) ∷ rest) some_total =
    let share = excess * bps / total in
    let above : excess * bps ≤ (share + 1) * total =
      omega (arith, lt-div-mul-add {a = excess * bps} some_total) in
    omega (arith, above, portions_ceiling excess total rest some_total)

pub sum_bps_lem :
    (acc : ℕ) (allocations : Dict ℕ)
    → Ensures (λ total. total ≡ acc + shares allocations) (sum_bps acc allocations)
unfolding sum_bps
sum_bps_lem acc [] = omega arith
sum_bps_lem acc ((market, bps) ∷ rest) =
    Ensures-if _ (ltb (acc + bps) u16_modulus) _ _
      (λ _.
        Ensures-map _ _ (sum_bps (acc + bps) rest) (sum_bps_lem (acc + bps) rest)
          λ total e. omega (arith, e))
      λ _. tt

pub spent-append : (a b : List Message) → spent (a ++ b) ≡ spent a + spent b
spent-append [] b = omega arith
spent-append (deposit_liquidity asset market amount ∷ rest) b = omega (arith, spent-append rest b)
spent-append (withdraw_liquidity market lp_amount ∷ rest) b = spent-append rest b
spent-append (market_claim_yield market ∷ rest) b = spent-append rest b
spent-append (bank_send to_address denom amount ∷ rest) b = omega (arith, spent-append rest b)
spent-append (cw20_transfer token recipient amount ∷ rest) b = omega (arith, spent-append rest b)

spent-send_rest :
    (asset : UsdcAsset) (governance amount : ℕ) → spent (send_rest asset governance amount) ≡ amount
unfolding send_rest
spent-send_rest (cw20 addr) governance amount = omega arith
spent-send_rest (native denom) governance amount = omega arith

documented_portion :
    (excess bps total : ℕ) {amount : ℕ}
    → context (documented.uint128_multiply_ratio excess bps total) panic ≡ ok amount
    → amount ≡ excess * bps / total
documented_portion excess bps total h = ground arith

documented_left :
    (remaining amount : ℕ)
    → (if amount == 0 then remaining else documented.uint128_saturating_sub remaining amount)
      ≡ remaining - amount
documented_left remaining amount = ground arith

spent-sent :
    (asset : UsdcAsset) (market amount : ℕ) (messages : List Message)
    → spent (if amount == 0 then messages else deposit_liquidity asset market amount ∷ messages)
      ≡ amount + spent messages
spent-sent asset market amount messages = ground arith

pub last_lem :
    (asset : UsdcAsset) (governance remaining : ℕ)
    → spent (if remaining == 0 then [] else send_rest asset governance remaining) ≡ remaining
last_lem asset governance remaining = elim (Bool-cases (remaining == 0)) [
  | inl nothing ↦ rw nothing (ground (arith, nothing))
  | inr some_left ↦ rw some_left (spent-send_rest asset governance remaining)
]

-- What the loop leaves: the messages send the portions, which the allocations get, and the rest
-- remains.
pub record Allocated (portion remaining : ℕ) (allocations : Dict ℕ)
    (done : List Message × (Dict ℕ × ℕ)) : Type 0 where
  pub sends : spent done.0 ≡ portion
  pub keeps : spent done.0 + done.1.1 ≡ remaining
  pub lends : shares done.1.0 ≡ shares allocations + spent done.0

module _ ⦃c : Cosmwasm⦄ (doc : IsDocumented c) where
  pub portion_ok :
      (excess bps total : ℕ) {amount : ℕ}
      → context (c.uint128_multiply_ratio excess bps total) panic ≡ ok amount
      → amount ≡ excess * bps / total
  portion_ok = rw (eq_documented doc) documented_portion

  left_lem :
      (remaining amount : ℕ)
      → (if amount == 0 then remaining else c.uint128_saturating_sub remaining amount)
        ≡ remaining - amount
  left_lem = rw (eq_documented doc) documented_left

  allot_lem :
      (market amount : ℕ) (allocations : Dict ℕ)
      → Ensures (λ w. shares w ≡ shares allocations + amount) (allot market amount allocations)
  unfolding allot
  allot_lem market amount allocations =
      let P : Dict ℕ → Type 0 = λ w. shares w ≡ shares allocations + amount in
      let old = unwrap_or (may_load market allocations) 0 in
      Ensures-if P (amount == 0) _ _ (λ nothing. ground (arith, nothing))
        λ _. Ensures-then P (context (c.uint128_add old amount) panic) _ λ more e. omega (
          arith,
          uint128_add_ok doc old amount e,
          or_zero-weight market allocations,
          sum-save (λ n. n) market more allocations,
        )

  pub allocate_lem :
      (asset : UsdcAsset) (excess total_bps : ℕ) (bps : Dict ℕ) (remaining : ℕ)
      (allocations : Dict ℕ)
      → portions excess total_bps bps ≤ remaining
      → Ensures
          (Allocated (portions excess total_bps bps) remaining allocations)
          (allocate asset excess total_bps bps remaining allocations)
  unfolding allocate
  allocate_lem asset excess total_bps [] remaining allocations h = record {
    sends = refl;
    keeps = omega arith;
    lends = omega arith;
  }
  allocate_lem asset excess total_bps ((market, bps) ∷ rest) remaining allocations h =
      let Q =
        Allocated (excess * bps / total_bps + portions excess total_bps rest) remaining
          allocations in
      Ensures-then Q (context (c.uint128_multiply_ratio excess bps total_bps) panic) _
        λ amount is_portion.
          Ensures-bind (λ w. shares w ≡ shares allocations + amount) Q
            (allot market amount allocations) _ (allot_lem market amount allocations)
            λ written more. rw (left_lem remaining amount) (
              Ensures-bind _ Q (allocate asset excess total_bps rest (remaining - amount) written) _
                (allocate_lem asset excess total_bps rest (remaining - amount) written
                  (omega (arith, h, portion_ok excess bps total_bps is_portion)))
                λ done e.
                  let portion = portion_ok excess bps total_bps is_portion in
                  let sent = spent-sent asset market amount done.0 in
                  record {
                    sends = omega (arith, sent, e.sends, portion);
                    keeps = omega (arith, h, sent, e.keeps, portion);
                    lends = omega (arith, sent, e.lends, more);
                  })
