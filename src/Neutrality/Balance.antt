-- ===== src/Neutrality/Balance.antt =====
-- Where the fee goes: the charge of contracts/market/src/state/delta_neutrality_fee.rs and the
-- collection of the protocol's part in contracts/market/src/state/fees.rs.
use levana_perps.Cosmwasm.{IsDocumented, documented, eq_documented, Cosmwasm}
use levana_perps.Liquidity.FeeBalance.{collect_trading_fee_lem}
use levana_perps.Liquidity.Fees.{collect_trading_fee_inner, FeeRates}
use levana_perps.Liquidity.Storage.{net_notional}
use levana_perps.Number.Signed.{
  signed_add, neg, Signed, new_positive, checked_add_signed, signed_sub,
}
use levana_perps.Number.NonZero.{non_zero, try_from_signed, non_zero_sub_signed}
use levana_perps.Prelude.{
  Ensures-ok, >>=-eq-ok, Ensures-then, Ensures-bind, ok, Ensures, ℕ, ◌+◌, ◌≤◌, ◌≡◌, subst, arith,
}
use levana_perps.Neutrality.Passes.{new_multi_pass, run_passes, NeutralityConfig}
use levana_perps.Neutrality.Fund.{
  run_passes-IsCovered, checked_add_signed_parts, IsCovered, IsCovered-down,
}
use levana_perps.Funding.Parts.{down, up, signed_sub_parts}
use levana_perps.Liquidity.State.{Env, Pool}
use levana_perps.Neutrality.Charge.{
  charge_delta_neutrality_fee, apply_charge, DeltaNeutralityFeeReason, margin_factor,
  checked_add_assign, protocol_fees_of, ChargedPosition, charge_no_update, ChargeResult,
}

documented_sub_signed :
    (a : ℕ) (b : Signed)
    → Ensures (λ r. r + up b ≡ a + down b) (non_zero_sub_signed ⦃c = documented⦄ a b)
unfolding non_zero_sub_signed try_from_signed non_zero signed_add neg
documented_sub_signed a b = ground arith

-- What the wallets and the protocol have in the balances of the fees.
abbrev pub earned : Pool → ℕ
earned p = p.fees.wallets + p.fees.protocol

-- The fund and the protocol get what the position pays, or the fund pays it.
pub record IsCharged (fund : ℕ) (res : ChargeResult) : Type 0 where
  pub splits : res.total_funds_after + res.protocol_fees + down res.fee ≡ fund + up res.fee
  pub limits : down res.fee ≤ fund

module _ ⦃c : Cosmwasm⦄ (doc : IsDocumented c) where
  charge_no_update_lem :
      (f : NeutralityConfig) (e : Env) (fund : ℕ) (position : ChargedPosition)
      (notional_delta : Signed) (reason : DeltaNeutralityFeeReason)
      → Ensures (IsCharged fund) (charge_no_update f e fund position notional_delta reason)
  unfolding charge_no_update
  charge_no_update_lem f e fund position notional_delta reason =
      let Q = IsCharged fund in
      Ensures-then Q (net_notional e) _ λ net _.
        let m = new_multi_pass fund net notional_delta (margin_factor reason position) in
        Ensures-bind _ Q (run_passes f e m) _ (run_passes-IsCovered doc f e m) λ n paid.
          let taxed = protocol_fees_of f n.fees in
          Ensures-bind _ Q (signed_sub n.fees (new_positive taxed)) _
            (signed_sub_parts doc n.fees (new_positive taxed))
            λ fund_fees rest.
              Ensures-bind _ Q (checked_add_signed n.total_in_fund_before_calc fund_fees) _
                (checked_add_signed_parts doc n.total_in_fund_before_calc fund_fees)
                λ after sum. record {
                  splits = omega (arith, rest, sum, paid.0);
                  limits =
                      IsCovered-down fund n.fees
                        (subst (λ held. IsCovered held n.fees) paid.0 paid.1);
                }

  sub_signed_parts :
      (a : ℕ) (b : Signed) → Ensures (λ r. r + up b ≡ a + down b) (non_zero_sub_signed a b)
  sub_signed_parts = rw (eq_documented doc) documented_sub_signed

  charged :
      (f : NeutralityConfig) (e : Env) (fund : ℕ) (position : ChargedPosition)
      (notional_delta : Signed) (reason : DeltaNeutralityFeeReason)
      → Ensures
          (λ r.
            IsCharged fund r.0
            × (r.1.active_collateral + up r.0.fee ≡ position.active_collateral + down r.0.fee))
          (charge_delta_neutrality_fee f e fund position notional_delta reason)
  unfolding charge_delta_neutrality_fee
  charged f e fund position notional_delta reason =
      let Q : ChargeResult × ChargedPosition → Type 0 = λ r.
        IsCharged fund r.0
        × (r.1.active_collateral + up r.0.fee ≡ position.active_collateral + down r.0.fee) in
      Ensures-bind (IsCharged fund) Q (charge_no_update f e fund position notional_delta reason) _
        (charge_no_update_lem f e fund position notional_delta reason)
        λ res is_charged.
          Ensures-bind _ Q (non_zero_sub_signed position.active_collateral res.fee) _
            (sub_signed_parts position.active_collateral res.fee)
            λ active moves.
              Ensures-then Q (checked_add_assign e res.fee position.delta_neutrality_fee) _
                λ total _. (is_charged, moves)

  -- Charging a delta neutrality fee and applying the charge moves collateral and neither creates nor
  -- destroys any: the collateral of the position, the fund and what the wallets and the protocol have
  -- earned add up to the same before and after, and the fund pays at most what it holds.
  pub charge_apply_lem :
      (f : NeutralityConfig) (rates : FeeRates) (e : Env) (fund : ℕ) (position : ChargedPosition)
      (notional_delta : Signed) (reason : DeltaNeutralityFeeReason) (p : Pool) {res : ChargeResult}
      {after : ChargedPosition} {left : ℕ × Pool}
      → charge_delta_neutrality_fee f e fund position notional_delta reason ≡ ok (res, after)
      → apply_charge rates e res p ≡ ok left
      → (after.active_collateral + left.0 + earned left.1
          ≡ position.active_collateral + fund + earned p)
        × (down res.fee ≤ fund)
  unfolding apply_charge
  charge_apply_lem f rates e fund position notional_delta reason p {res} {after} {left} h k =
      let facts =
        Ensures-ok _ (charge_delta_neutrality_fee f e fund position notional_delta reason)
          (charged f e fund position notional_delta reason) h in
      let step = >>=-eq-ok (collect_trading_fee_inner rates e res.protocol_fees p) _ k in
      let adds = collect_trading_fee_lem doc rates e res.protocol_fees p step.1 in
      let same : left ≡ (res.total_funds_after, step.0) = cc (step.2) in
      rw same (omega (arith, facts.0.splits, facts.1, adds.0), facts.0.limits)
