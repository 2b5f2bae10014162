-- ===== src/Vault/Redistributing.antt =====
-- `execute_redistribute_funds` of contracts/vault/src/execute.rs: the whole call.
use levana_perps.Vault.Portions.{
  lent_to-send_rest, allocate-Lends, lent_to-append, Lends, allocation, lent_to, paid_to-send_rest,
  paid_to, portion_to, paid_to-append,
}
use levana_perps.Prelude.Dict.{size}
use levana_perps.Cosmwasm.{Cosmwasm, IsDocumented}
use levana_perps.Liquidity.Shares.{below_product}
use levana_perps.Prelude.{
  Ensures-ok, if◌then◌else◌, ◌∙◌, ◌≢◌, [], ◌==◌, ltb, ensure, Ensures-then, failed, Ensures,
  Ensures-bind, auth, ok, ℕ, ◌+◌, ◌-◌, ◌*◌, ◌≤◌, ◌<◌, ◌≡◌, refl, subst, not, List, ◌++◌, arith,
}
use levana_perps.Prelude.Dict.{Dict}
use levana_perps.Vault.Execute.{send_rest, execute_redistribute_funds, sum_bps, allocate}
use levana_perps.Vault.Lending.{
  portions_floor, last_lem, portions, Allocated, sum_bps_lem, spent, portions_ceiling, allocate_lem,
  spent-append,
}
use levana_perps.Vault.State.{Info, Chain, Vault, Message}
use levana_perps.Vault.Common.{check_not_paused, asset_balance}
use levana_perps.Vault.Books.{shares}

-- What is above the pending withdrawals.
abbrev excess_of : ℕ → Vault → ℕ
excess_of vault_balance v = vault_balance - v.total_pending_withdrawals

-- The part of the excess that a market is to get, by its share of the basis points of all markets.
abbrev portion_of : ℕ → ℕ → Vault → ℕ
portion_of market vault_balance v =
    let bps = v.config.markets_allocation_bps in
    portion_to market (excess_of vault_balance v) (shares bps) bps

-- What the markets and the governance get. The markets are lent by messages what is added to their
-- allocations, and each its portion of the excess; the governance is paid the rest, which is at most
-- one unit for each market, and nobody else is paid; nothing but the allocations changes.
pub record Redistributed (vault_balance : ℕ) (v : Vault) (r : Vault × List Message) : Type 0 where
  pub spends : spent r.1 + v.total_pending_withdrawals ≡ vault_balance
  pub lends : shares r.0.market_allocations ≤ shares v.market_allocations + spent r.1
  pub returns :
      shares v.market_allocations + spent r.1
      ≤ shares r.0.market_allocations + size v.config.markets_allocation_bps
  pub lends_portions : (market : ℕ) → lent_to market r.1 ≡ portion_of market vault_balance v
  pub records_portions :
      (market : ℕ)
      → allocation market r.0.market_allocations
        ≡ allocation market v.market_allocations + portion_of market vault_balance v
  pub pays_rest :
      paid_to v.config.governance r.1
        + portions
            (excess_of vault_balance v)
            (shares v.config.markets_allocation_bps)
            v.config.markets_allocation_bps
      ≡ excess_of vault_balance v
  pub pays_little : paid_to v.config.governance r.1 ≤ size v.config.markets_allocation_bps
  pub pays_nobody_else : (user : ℕ) → user ≢ v.config.governance → paid_to user r.1 ≡ 0
  pub same_else : r.0 ≡ record v { market_allocations = r.0.market_allocations }

-- What the loop leaves and the last message are what is to be redistributed.
excess_accounted :
    (vault_balance : ℕ) (v : Vault) (done : List Message × (Dict ℕ × ℕ))
    → 0 < excess_of vault_balance v
    → 0 < shares v.config.markets_allocation_bps
    → Allocated
        (portions
          (excess_of vault_balance v)
          (shares v.config.markets_allocation_bps)
          v.config.markets_allocation_bps)
        (excess_of vault_balance v)
        v.market_allocations
        done
    → ((m u : ℕ) → Lends m u (portion_of m vault_balance v) v.market_allocations done)
    → Redistributed vault_balance v (
      record v { market_allocations = done.1.0 },
      done.0
          ++ (if done.1.1 == 0
              then []
              else send_rest v.config.usdc_denom v.config.governance done.1.1),
    )
excess_accounted vault_balance v done some_excess some_total a l =
    let bps = v.config.markets_allocation_bps in
    let excess = excess_of vault_balance v in
    let denom = v.config.usdc_denom in
    let governance = v.config.governance in
    let left = done.1.1 in
    let last = if left == 0 then [] else send_rest denom governance left in
    let h = last_lem denom governance left in
    let above =
      below_product excess (portions excess (shares bps) bps + size bps) (shares bps) some_total
        (portions_ceiling excess (shares bps) bps some_total) in
    let all = spent-append done.0 last in
    let paid : (u : ℕ) → paid_to u (done.0 ++ last) ≡ (if u == governance then left else 0) = λ u.
      omega (
        arith,
        paid_to-append u done.0 last,
        (l 0 u).pays_nobody,
        paid_to-send_rest u denom governance left,
      ) in
    let to_governance : paid_to governance (done.0 ++ last) ≡ left =
      paid governance ∙ ground arith in
    record {
      spends = omega (arith, all, h, a.keeps, some_excess);
      lends = omega (arith, all, a.lends);
      returns = omega (arith, all, h, a.lends, a.keeps, a.sends, above);
      lends_portions = λ m. omega (
        arith,
        lent_to-append m done.0 last,
        lent_to-send_rest m denom governance left,
        (l m 0).lends_portion,
      );
      records_portions = λ m. (l m 0).records_portion;
      pays_rest = omega (arith, to_governance, a.keeps, a.sends);
      pays_little = omega (arith, to_governance, a.keeps, a.sends, above);
      pays_nobody_else = λ u other. paid u ∙ ground (arith, other);
      same_else = refl;
    }

some_of : (n : ℕ) {u : Unit {0}} → ensure (not (n == 0)) failed ≡ ok u → 0 < n
some_of n h = ground arith

portions_within :
    (excess total : ℕ) (bps : Dict ℕ)
    → 0 < total
    → total ≡ 0 + shares bps
    → portions excess total bps ≤ excess
portions_within excess total bps some_total sums =
    let whole : shares bps ≡ total = omega (arith, sums) in
    below_product (portions excess total bps) excess total some_total (
      subst (λ n. portions excess total bps * total ≤ excess * n) whole
        (portions_floor excess total bps))

module _ ⦃c : Cosmwasm⦄ (doc : IsDocumented c) where
  -- Where the chain answers the query of the balance, redistributing, if it succeeds, sends exactly
  -- the balance of the vault less the pending withdrawals, so that what stays covers these. Each market is sent its portion of this excess by
  -- its basis points, rounded down, and what it is recorded to hold grows by the same. The governance
  -- is paid the rest, at most one unit for each market, and nobody else is paid; of the vault, only
  -- the allocations change, by at most what is sent.
  pub execute_redistribute_funds_lem :
      (e : Chain) (info : Info) (v : Vault) (vault_balance : ℕ)
      → asset_balance e v.config.usdc_denom ≡ ok vault_balance
      → Ensures (Redistributed vault_balance v) (execute_redistribute_funds e info v)
  unfolding execute_redistribute_funds
  execute_redistribute_funds_lem e info v vault_balance answer =
      let Q = Redistributed vault_balance v in
      let bps = v.config.markets_allocation_bps in
      let excess = vault_balance - v.total_pending_withdrawals in
      Ensures-then Q (check_not_paused v.config) _ λ _ _.
        Ensures-then Q (ensure (v.config.governance == info.sender) auth) _ λ _ _.
          rw (answer, doc.uint128_saturating_sub_lem vault_balance v.total_pending_withdrawals)
            (Ensures-then Q (ensure (not (excess == 0)) failed) _ λ _ some_excess.
              Ensures-bind _ Q (sum_bps 0 bps) _ (sum_bps_lem 0 bps) λ total sums.
                Ensures-then Q (ensure (not (total == 0)) failed) _ λ _ some_total.
                  Ensures-then Q (ensure (not (ltb 10000 total)) failed) _ λ _ _.
                    Ensures-then Q
                      (allocate v.config.usdc_denom excess total bps excess v.market_allocations) _
                      λ done run.
                        let whole : total ≡ shares bps = omega (arith, sums) in
                        let loop : (P : List Message × (Dict ℕ × ℕ) → Type 0)
                            → Ensures P (
                                allocate v.config.usdc_denom excess total bps excess
                                  v.market_allocations)
                            → P done =
                          λ P e. Ensures-ok P _ e run in
                        excess_accounted vault_balance v done (some_of excess some_excess)
                          (subst (λ n. 0 < n) whole (some_of total some_total))
                          (subst
                            (λ n.
                              Allocated (portions excess n bps) excess v.market_allocations done)
                            whole
                            (loop _ (
                              allocate_lem doc v.config.usdc_denom excess total bps excess
                                v.market_allocations
                                (portions_within excess total bps (some_of total some_total)
                                  sums))))
                          λ m u.
                            subst
                              (λ n. Lends m u (portion_to m excess n bps) v.market_allocations done)
                              whole
                              (loop _ (
                                allocate-Lends doc m u v.config.usdc_denom excess total bps excess
                                  v.market_allocations)))
