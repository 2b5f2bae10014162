-- ===== src/Vault/Portions.antt =====
-- `execute_redistribute_funds` of contracts/vault/src/execute.rs: what each market and each other
-- account gets.
use levana_perps.Cosmwasm.{IsDocumented, Cosmwasm}
use levana_perps.Vault.State.{
  deposit_liquidity, withdraw_liquidity, bank_send, cw20_transfer, native, cw20, market_claim_yield,
  UsdcAsset, Message,
}
use levana_perps.Prelude.{
  subst, if◌then◌else◌, ◌==◌, unwrap_or, panic, Ensures, Ensures-if, context, Ensures-bind,
  Ensures-then, ℕ, ◌+◌, ◌*◌, ◌/◌, ◌≡◌, refl, ◌∙◌, List, [], ◌∷◌, ◌++◌, arith,
}
use levana_perps.Prelude.Dict.{may_load, may_load-save, Dict, save}
use levana_perps.Vault.Sharing.{uint128_add_ok}
use levana_perps.Vault.Lending.{portion_ok}
use levana_perps.Vault.Execute.{send_rest, allot, allocate}

-- What a market is recorded to hold.
abbrev pub allocation : ℕ → Dict ℕ → ℕ
allocation market allocations = unwrap_or (may_load market allocations) 0

-- What messages deposit into a market.
abbrev pub lent_to : ℕ → List Message → ℕ
lent_to m [] = 0
lent_to m (deposit_liquidity asset market amount ∷ rest) =
    (if m == market then amount else 0) + lent_to m rest
lent_to m (withdraw_liquidity market lp_amount ∷ rest) = lent_to m rest
lent_to m (market_claim_yield market ∷ rest) = lent_to m rest
lent_to m (bank_send to_address denom amount ∷ rest) = lent_to m rest
lent_to m (cw20_transfer token recipient amount ∷ rest) = lent_to m rest

-- What messages pay to an account.
abbrev pub paid_to : ℕ → List Message → ℕ
paid_to u [] = 0
paid_to u (deposit_liquidity asset market amount ∷ rest) = paid_to u rest
paid_to u (withdraw_liquidity market lp_amount ∷ rest) = paid_to u rest
paid_to u (market_claim_yield market ∷ rest) = paid_to u rest
paid_to u (bank_send to_address denom amount ∷ rest) =
    (if u == to_address then amount else 0) + paid_to u rest
paid_to u (cw20_transfer token recipient amount ∷ rest) =
    (if u == recipient then amount else 0) + paid_to u rest

-- The part of the excess that a market is to get, rounded down.
abbrev pub portion_to : ℕ → ℕ → ℕ → Dict ℕ → ℕ
portion_to m excess total [] = 0
portion_to m excess total ((market, bps) ∷ rest) =
    (if m == market then excess * bps / total else 0) + portion_to m excess total rest

pub lent_to-append : (m : ℕ) (a b : List Message) → lent_to m (a ++ b) ≡ lent_to m a + lent_to m b
lent_to-append m [] b = omega arith
lent_to-append m (deposit_liquidity asset market amount ∷ rest) b =
    omega (arith, lent_to-append m rest b)
lent_to-append m (withdraw_liquidity market lp_amount ∷ rest) b = lent_to-append m rest b
lent_to-append m (market_claim_yield market ∷ rest) b = lent_to-append m rest b
lent_to-append m (bank_send to_address denom amount ∷ rest) b = lent_to-append m rest b
lent_to-append m (cw20_transfer token recipient amount ∷ rest) b = lent_to-append m rest b

pub paid_to-append : (u : ℕ) (a b : List Message) → paid_to u (a ++ b) ≡ paid_to u a + paid_to u b
paid_to-append u [] b = omega arith
paid_to-append u (deposit_liquidity asset market amount ∷ rest) b = paid_to-append u rest b
paid_to-append u (withdraw_liquidity market lp_amount ∷ rest) b = paid_to-append u rest b
paid_to-append u (market_claim_yield market ∷ rest) b = paid_to-append u rest b
paid_to-append u (bank_send to_address denom amount ∷ rest) b =
    omega (arith, paid_to-append u rest b)
paid_to-append u (cw20_transfer token recipient amount ∷ rest) b =
    omega (arith, paid_to-append u rest b)

-- The last message pays one account and no market.
pub lent_to-send_rest :
    (m : ℕ) (asset : UsdcAsset) (governance amount : ℕ)
    → lent_to m (if amount == 0 then [] else send_rest asset governance amount) ≡ 0
unfolding send_rest
lent_to-send_rest m (cw20 addr) governance amount = ground arith
lent_to-send_rest m (native denom) governance amount = ground arith

pub paid_to-send_rest :
    (u : ℕ) (asset : UsdcAsset) (governance amount : ℕ)
    → paid_to u (if amount == 0 then [] else send_rest asset governance amount)
      ≡ (if u == governance then amount else 0)
unfolding send_rest
paid_to-send_rest u (cw20 addr) governance amount = ground arith
paid_to-send_rest u (native denom) governance amount = ground arith

lent_to-sent :
    (m : ℕ) (asset : UsdcAsset) (market amount : ℕ) (messages : List Message)
    → lent_to m (if amount == 0 then messages else deposit_liquidity asset market amount ∷ messages)
      ≡ (if m == market then amount else 0) + lent_to m messages
lent_to-sent m asset market amount messages = ground arith

paid_to-sent :
    (u : ℕ) (asset : UsdcAsset) (market amount : ℕ) (messages : List Message)
    → paid_to u (if amount == 0 then messages else deposit_liquidity asset market amount ∷ messages)
      ≡ paid_to u messages
paid_to-sent u asset market amount messages = ground arith

allocation-save :
    (m market more : ℕ) (allocations : Dict ℕ)
    → allocation m (save market more allocations)
      ≡ (if m == market then more else allocation m allocations)
allocation-save m market more allocations = ground (arith, may_load-save m market more allocations)

-- What the loop does for one market and for one account: the market is sent its portion, which is
-- added to what it is recorded to hold, and no account is paid.
pub record Lends (m u portion : ℕ) (allocations : Dict ℕ) (done : List Message × (Dict ℕ × ℕ))
    : Type 0 where
  pub lends_portion : lent_to m done.0 ≡ portion
  pub records_portion : allocation m done.1.0 ≡ allocation m allocations + portion
  pub pays_nobody : paid_to u done.0 ≡ 0

module _ ⦃c : Cosmwasm⦄ (doc : IsDocumented c) (m u : ℕ) where
  allot-allocation :
      (market amount : ℕ) (allocations : Dict ℕ)
      → Ensures
          (λ w. allocation m w ≡ allocation m allocations + (if m == market then amount else 0))
          (allot market amount allocations)
  unfolding allot
  allot-allocation market amount allocations =
      let P : Dict ℕ → Type 0 =
        λ w. allocation m w ≡ allocation m allocations + (if m == market then amount else 0) in
      let old = allocation market allocations in
      Ensures-if P (amount == 0) _ _ (λ nothing. ground (arith, nothing))
        λ _. Ensures-then P (context (c.uint128_add old amount) panic) _ λ more e.
          ground (arith, uint128_add_ok doc old amount e, allocation-save m market more allocations)

  pub allocate-Lends :
      (asset : UsdcAsset) (excess total_bps : ℕ) (bps : Dict ℕ) (rest_amount : ℕ)
      (allocations : Dict ℕ)
      → Ensures
          (Lends m u (portion_to m excess total_bps bps) allocations)
          (allocate asset excess total_bps bps rest_amount allocations)
  unfolding allocate
  allocate-Lends asset excess total_bps [] rest_amount allocations = record {
    lends_portion = refl;
    records_portion = omega arith;
    pays_nobody = refl;
  }
  allocate-Lends asset excess total_bps ((market, bps) ∷ rest) rest_amount allocations =
      let Q = Lends m u (portion_to m excess total_bps ((market, bps) ∷ rest)) allocations in
      Ensures-then Q (context (c.uint128_multiply_ratio excess bps total_bps) panic) _
        λ amount is_portion.
          Ensures-bind _ Q (allot market amount allocations) _
            (allot-allocation market amount allocations)
            λ written more.
              Ensures-bind _ Q (allocate asset excess total_bps rest _ written) _
                (allocate-Lends asset excess total_bps rest _ written)
                λ done e.
                  let portion = portion_ok doc excess bps total_bps is_portion in
                  let sent = lent_to-sent m asset market amount done.0 in
                  record {
                    lends_portion = rw (sent, e.lends_portion, portion) refl;
                    records_portion =
                        subst
                          (λ n.
                            allocation m done.1.0
                            ≡ allocation m allocations
                              + ((if m == market then n else 0)
                                  + portion_to m excess total_bps rest))
                          portion (omega (arith, e.records_portion, more));
                    pays_nobody = paid_to-sent u asset market amount done.0 ∙ e.pays_nobody;
                  }
