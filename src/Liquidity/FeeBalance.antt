-- ===== src/Liquidity/FeeBalance.antt =====
-- The balances of the fees under their collection and payment, in contracts/market/src/state/fees.rs.
use levana_perps.Cosmwasm.{one, IsDocumented, Cosmwasm, below}
use levana_perps.Liquidity.Locking.{yield_per_token, add_lp_crank_rewards, process_new_yield}
use levana_perps.Liquidity.State.{Pool, Env}
use levana_perps.Liquidity.Fees.{
  allocate_crank_fees, collect_borrow_fee, pay_crank, earmark, FeeRates, split_fee,
  collect_trading_fee_inner, fee_event, take_tax, last_fee,
}
use levana_perps.Liquidity.Storage.{
  collateral_to_usd_non_zero, latest_yield, load_addr_default, save_addr,
}
use levana_perps.Number.Exact.{checked_sub_ok, checked_add_ok}
use levana_perps.Number.Unsigned.{checked_sub, checked_add, checked_mul_dec}
use levana_perps.Prelude.{
  leb, if◌then◌else◌, Ensures-map, ◌*◌, ◌==◌, Ensures-then, Ensures-ok, ensure, Ensures-if, failed,
  Ensures-bind, Ensures, context, ok, panic, overflow, ℕ, ◌+◌, ◌^◌, ◌≤◌, ◌≡◌, refl, not, ◌||◌,
  arith,
}

-- The balances grow by the amount, and those of cranks and referrers stay.
abbrev pub Adds : ℕ → Pool → Pool → Type 0
Adds amount p q =
    (q.fees.wallets + q.fees.protocol ≡ p.fees.wallets + p.fees.protocol + amount)
    × (p.fees.wallets ≤ q.fees.wallets)
    × (p.fees.protocol ≤ q.fees.protocol)
    × (q.fees.crank ≡ p.fees.crank)
    × (q.fees.referral ≡ p.fees.referral)

-- Moved from the crank fees to the wallets.
abbrev pub Pays : Pool → Pool → Type 0
Pays p q =
    (q.fees.wallets + q.fees.crank ≡ p.fees.wallets + p.fees.crank)
    × (q.fees.crank ≤ p.fees.crank)
    × (q.fees.protocol ≡ p.fees.protocol)
    × (q.fees.referral ≡ p.fees.referral)

abbrev SameFees : Pool → Pool → Type 0
SameFees p q = q.fees ≡ p.fees

module _ ⦃c : Cosmwasm⦄ where
  process_new_yield-SameFees :
      (lp xlp : ℕ) (p : Pool) → Ensures (SameFees p) (process_new_yield lp xlp p)
  unfolding process_new_yield
  process_new_yield-SameFees lp xlp p =
      Ensures-then (SameFees p) (yield_per_token lp p.stats.total_lp) _ λ _ _.
        Ensures-then (SameFees p) (yield_per_token xlp p.stats.total_xlp) _ λ _ _.
          Ensures-then (SameFees p) (latest_yield p) _ λ last _.
            Ensures-then (SameFees p) (checked_add last.1.lp _) _ λ _ _.
              Ensures-then (SameFees p) (checked_add last.1.xlp _) _ λ _ _.
                Ensures-then (SameFees p) (context (below (2 ^ 64) (last.0 + 1)) panic) _
                  λ _ _. refl

  add_lp_crank_rewards-SameFees :
      (addr amount : ℕ) (p : Pool) → Ensures (SameFees p) (add_lp_crank_rewards addr amount p)
  unfolding add_lp_crank_rewards save_addr
  add_lp_crank_rewards-SameFees addr amount p =
      Ensures-then (SameFees p) (load_addr_default addr p) _
        λ a _. Ensures-then (SameFees p) (checked_add a.crank_rewards amount) _ λ rewards _. refl

module _ ⦃c : Cosmwasm⦄ (doc : IsDocumented c) where
  take_tax-parts : (tax amount : ℕ) → Ensures (λ r. r.0 + r.1 ≡ amount) (take_tax tax amount)
  unfolding take_tax
  take_tax-parts tax amount =
      let Q : ℕ × ℕ → Type 0 = λ r. r.0 + r.1 ≡ amount in
      Ensures-then Q (checked_mul_dec amount tax) _ λ protocol_fee _.
        Ensures-then Q (checked_sub amount protocol_fee) _
          λ rest less. checked_sub_ok doc amount protocol_fee less

  split_fee-parts : (lp xlp fee : ℕ) → Ensures (λ r. r.0 + r.1 ≡ fee) (split_fee lp xlp fee)
  unfolding split_fee
  split_fee-parts lp xlp fee =
      let Q : ℕ × ℕ → Type 0 = λ r. r.0 + r.1 ≡ fee in
      Ensures-if Q (lp == 0) _ _ (λ _. omega arith)
        λ _.
          Ensures-if Q (xlp == 0) _ _ (λ _. omega arith)
            λ _. Ensures-then Q (context (c.dec_checked_mul fee lp) overflow) _ λ product _.
              Ensures-then Q (context (c.dec_checked_add lp xlp) overflow) _ λ both _.
                Ensures-then Q (context (c.dec_checked_div product both) overflow) _ λ lp_fee _.
                  Ensures-then Q (checked_sub fee lp_fee) _
                    λ xlp_fee less. omega (arith, checked_sub_ok doc fee lp_fee less)

  earmark-Adds :
      (lp_fee xlp_fee protocol_fee : ℕ) (p : Pool)
      → Ensures (Adds (lp_fee + xlp_fee + protocol_fee) p) (earmark lp_fee xlp_fee protocol_fee p)
  unfolding earmark
  earmark-Adds lp_fee xlp_fee protocol_fee p =
      let Q = Adds (lp_fee + xlp_fee + protocol_fee) p in
      Ensures-then Q (checked_add lp_fee xlp_fee) _ λ both sum.
        Ensures-then Q (checked_add p.fees.wallets both) _ λ wallets more.
          Ensures-then Q (checked_add p.fees.protocol protocol_fee) _ λ protocol taxed.
            let a = checked_add_ok doc lp_fee xlp_fee sum in
            let b = checked_add_ok doc p.fees.wallets both more in
            let d = checked_add_ok doc p.fees.protocol protocol_fee taxed in
            (omega (arith, a, b, d), omega (arith, b), omega (arith, d), refl, refl)

  collect_trading_fee-Adds :
      (f : FeeRates) (e : Env) (amount : ℕ) (p : Pool)
      → Ensures (Adds amount p) (collect_trading_fee_inner f e amount p)
  unfolding collect_trading_fee_inner
  collect_trading_fee-Adds f e amount p =
      let Q = Adds amount p in
      Ensures-bind (λ r. r.0 + r.1 ≡ amount) Q (take_tax f.protocol_tax amount) _
        (take_tax-parts f.protocol_tax amount)
        λ r whole. Ensures-then Q (last_fee f.lp_borrow_fee) _ λ lp _.
          Ensures-then Q (last_fee f.xlp_borrow_fee) _ λ xlp _.
            Ensures-then Q (ensure (not (lp == 0) || not (xlp == 0)) failed) _ λ _ _.
              Ensures-bind (λ s. s.0 + s.1 ≡ r.0) Q (split_fee lp xlp r.0) _
                (split_fee-parts lp xlp r.0)
                λ s parts.
                  Ensures-bind (Adds (s.0 + s.1 + r.1) p) Q (earmark s.0 s.1 r.1 p) _
                    (earmark-Adds s.0 s.1 r.1 p)
                    λ p1 adds.
                      Ensures-bind (SameFees p1) Q (process_new_yield s.0 s.1 p1) _
                        (process_new_yield-SameFees s.0 s.1 p1)
                        λ p2 same.
                          Ensures-then Q (fee_event e s.0 s.1 r.1) _
                            λ _ _. rw (same, ← whole, ← parts) adds

  -- A trading fee that is collected is earmarked to the last unit: the balances of the wallets and of
  -- the protocol grow by the amount together, neither shrinks, and those of cranks and referrers stay.
  pub collect_trading_fee_lem :
      (f : FeeRates) (e : Env) (amount : ℕ) (p : Pool) {q : Pool}
      → collect_trading_fee_inner f e amount p ≡ ok q
      → Adds amount p q
  collect_trading_fee_lem f e amount p h =
      Ensures-ok (Adds amount p) (collect_trading_fee_inner f e amount p)
        (collect_trading_fee-Adds f e amount p) h

  collect_borrow_fee-Adds :
      (f : FeeRates) (e : Env) (lp xlp : ℕ) (p : Pool)
      → Ensures (Adds (lp + xlp) p) (collect_borrow_fee f e lp xlp p)
  unfolding collect_borrow_fee
  collect_borrow_fee-Adds f e lp xlp p =
      let Q = Adds (lp + xlp) p in
      Ensures-bind (λ r. r.0 + r.1 ≡ lp) Q (take_tax f.protocol_tax lp) _
        (take_tax-parts f.protocol_tax lp)
        λ r whole.
          Ensures-bind (λ r. r.0 + r.1 ≡ xlp) Q (take_tax f.protocol_tax xlp) _
            (take_tax-parts f.protocol_tax xlp)
            λ t all. Ensures-then Q (checked_add r.1 t.1) _ λ protocol_fee taxes.
              Ensures-bind (SameFees p) Q (process_new_yield r.0 t.0 p) _
                (process_new_yield-SameFees r.0 t.0 p)
                λ p1 same. Ensures-then Q (fee_event e r.0 t.0 protocol_fee) _ λ _ _.
                  Ensures-map (Adds (r.0 + t.0 + protocol_fee) p1) Q
                    (earmark r.0 t.0 protocol_fee p1) (earmark-Adds r.0 t.0 protocol_fee p1)
                    λ q adds.
                      let amount : r.0 + t.0 + protocol_fee ≡ lp + xlp =
                        omega (arith, whole, all, checked_add_ok doc r.1 t.1 taxes) in
                      rw (← same, ← amount) adds

  -- A borrow fee that is collected is earmarked to the last unit in the same way.
  pub collect_borrow_fee_lem :
      (f : FeeRates) (e : Env) (lp xlp : ℕ) (p : Pool) {q : Pool}
      → collect_borrow_fee f e lp xlp p ≡ ok q
      → Adds (lp + xlp) p q
  collect_borrow_fee_lem f e lp xlp p h =
      Ensures-ok (Adds (lp + xlp) p) (collect_borrow_fee f e lp xlp p)
        (collect_borrow_fee-Adds f e lp xlp p) h

  pay_crank-Pays :
      (e : Env) (addr payment : ℕ) (p : Pool) → Ensures (Pays p) (pay_crank e addr payment p)
  unfolding pay_crank
  pay_crank-Pays e addr payment p =
      Ensures-then (Pays p) (checked_sub p.fees.crank payment) _ λ crank less.
        Ensures-then (Pays p) (checked_add p.fees.wallets payment) _ λ wallets more.
          let p1 = record p { fees = record p.fees { crank = crank; wallets = wallets } } in
          let a = checked_sub_ok doc p.fees.crank payment less in
          let b = checked_add_ok doc p.fees.wallets payment more in
          Ensures-bind (SameFees p1) (Pays p) (add_lp_crank_rewards addr payment p1) _
            (add_lp_crank_rewards-SameFees addr payment p1)
            λ q same.
              Ensures-then (Pays p) (collateral_to_usd_non_zero e payment) _
                λ _ _. rw same (omega (arith, a, b), omega (arith, a), refl, refl)

  allocate_crank_fees-Pays :
      (f : FeeRates) (e : Env) (addr cranks : ℕ) (p : Pool)
      → Ensures (Pays p) (allocate_crank_fees f e addr cranks p)
  unfolding allocate_crank_fees
  allocate_crank_fees-Pays f e addr cranks p =
      Ensures-if (Pays p) (cranks == 0) _ _ (λ _. unpaid)
        λ _.
          Ensures-then (Pays p)
            (context (c.dec_checked_mul f.crank_fee_reward (cranks * one)) overflow) _
            λ most _.
              let payment = if leb most p.fees.crank then most else p.fees.crank in
              Ensures-if (Pays p) (payment == 0) _ _ (λ _. unpaid)
                λ _. pay_crank-Pays e addr payment p
    where
      unpaid : Pays p p
      unpaid = (refl, omega arith, refl, refl)

  -- The payment of cranks moves collateral from the crank fees to the wallets, no more than there is,
  -- and touches no other balance.
  pub allocate_crank_fees_lem :
      (f : FeeRates) (e : Env) (addr cranks : ℕ) (p : Pool) {q : Pool}
      → allocate_crank_fees f e addr cranks p ≡ ok q
      → Pays p q
  allocate_crank_fees_lem f e addr cranks p h =
      Ensures-ok (Pays p) (allocate_crank_fees f e addr cranks p)
        (allocate_crank_fees-Pays f e addr cranks p) h
