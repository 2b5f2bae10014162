-- ===== src/Liquidity/DepositBooks.antt =====
-- The books of the pool under deposits, claims and the reinvestment of yield, in
-- contracts/market/src/state/liquidity.rs.
use levana_perps.Cosmwasm.{IsDocumented, Cosmwasm}
use levana_perps.Liquidity.Working.{
  open_entry, change_entry, save_stats-Wrote, close_entry, Wrote-IsWorking, Wrote, Wrote-Loaded,
}
use levana_perps.Liquidity.StakingBooks.{liquidity_stake_lp-IsBooked}
use levana_perps.Liquidity.Keeping.{perform_lp_book_keeping}
use levana_perps.Liquidity.Books.{IsBooked, IsUnstaking}
use levana_perps.Liquidity.Stats.{collateral_to_lp}
use levana_perps.Liquidity.Frames.{
  Cools, cooldown-Cools, send_yield-IsBooked, add_deposit_history-IsBooked,
  register_lp_claimed_yield-IsBooked, reinvested-IsBooked,
}
use levana_perps.Liquidity.State.{LiquidityStats, Env, AddrStats, Pool}
use levana_perps.Liquidity.Provider.{
  liquidity_claim_yield, cooldown, ensure_max_liquidity, stake_if, liquidity_deposit, reinvested,
  reinvest_yield, total_yield, liquidity_deposit_inner, send_yield, register_lp_claimed_yield,
}
use levana_perps.Liquidity.KeepsBooks.{
  SameTotals, add_action-IsBooked, load_addr_default_ok, perform_lp_book_keeping-SameTotals,
  same_entry, load_addr_ok, Loaded,
}
use levana_perps.Liquidity.Storage.{
  save_addr, save_stats, collateral_to_usd_non_zero, pool_size_events, load_addr,
  add_deposit_history, load_addr_default,
}
use levana_perps.Number.NonZero.{non_zero}
use levana_perps.Number.Exact.{checked_add_ok}
use levana_perps.Number.Unsigned.{checked_add}
use levana_perps.Prelude.{
  Ensures, Ensures-bind, context, no_yield_to_claim, Ensures-then, ℕ, ◌+◌, ◌≡◌, refl, sym, subst,
  Bool, true, false, not, Option, some, arith,
}

-- The entry and the totals of a deposit are written, where the entry is read after the totals.
deposited :
    (addr shares : ℕ) (a b : AddrStats) (s : LiquidityStats) (p1 p2 : Pool)
    → IsBooked p1
    → Wrote s p1 p2
    → Loaded addr p2 a
    → s.total_lp ≡ p1.stats.total_lp + shares
    → s.total_xlp ≡ p1.stats.total_xlp
    → Cools (record a { lp = a.lp + shares }) b
    → IsBooked (save_addr addr b p2)
deposited addr shares a b s p1 p2 k wrote l lp xlp (same_lp, same_xlp, same_un) =
    let w = open_entry addr a p1 k (Wrote-Loaded addr a s p1 p2 wrote l) in
    close_entry addr b p2 (
      Wrote-IsWorking addr b s p1 p2
        (change_entry addr a b s p1 w (subst IsUnstaking (sym same_un) w.unstaking)
          (rw same_un (omega (arith, same_lp))) (omega arith))
        wrote)

module _ ⦃c : Cosmwasm⦄ (doc : IsDocumented c) where
  -- A deposit keeps the books: the shares that it mints go to the provider and to the total.
  pub liquidity_deposit_inner-IsBooked :
      (e : Env) (addr amount : ℕ) (start : Bool) (p : Pool)
      → IsBooked p
      → Ensures (λ r. IsBooked r.1) (liquidity_deposit_inner e addr amount start p)
  unfolding liquidity_deposit_inner
  liquidity_deposit_inner-IsBooked e addr amount start p k =
      let Q : ℕ × Pool → Type 0 = λ r. IsBooked r.1 in
      Ensures-then Q (ensure_max_liquidity e amount p.stats) _ λ _ _.
        Ensures-bind (SameTotals p.stats) Q (perform_lp_book_keeping e addr p) _
          (perform_lp_book_keeping-SameTotals doc e addr p k)
          λ p1 k1. Ensures-then Q (collateral_to_lp p.stats amount) _ λ shares _.
            Ensures-then Q (checked_add p.stats.total_lp shares) _ λ total_lp minted.
              Ensures-then Q (checked_add p.stats.unlocked amount) _ λ unlocked _.
                let s = record p.stats { total_lp = total_lp; unlocked = unlocked } in
                Ensures-bind (Wrote s p1) Q (save_stats s p1) _ (save_stats-Wrote s p1) λ p2 wrote.
                  Ensures-then Q (pool_size_events e s) _ λ _ _.
                    Ensures-then Q (load_addr_default addr p2) _ λ a found.
                      Ensures-then Q (checked_add a.lp shares) _ λ lp added.
                        Ensures-bind (Cools (record a { lp = lp })) Q
                          (cooldown e start (record a { lp = lp })) _ (cooldown-Cools e start _)
                          λ b cool. Ensures-then Q (collateral_to_usd_non_zero e amount) _ λ _ _.
                            deposited addr shares a b s p1 p2 k1.0 wrote
                              (load_addr_default_ok addr p2 found)
                              (rw k1.1 (checked_add_ok doc p.stats.total_lp shares minted))
                              (rw k1.1 refl) (rw (← checked_add_ok doc a.lp shares added) cool)

  stake_if-IsBooked :
      (stakes : Bool) (e : Env) (addr shares : ℕ) (p : Pool)
      → IsBooked p
      → Ensures IsBooked (stake_if stakes e addr shares p)
  unfolding stake_if
  stake_if-IsBooked true e addr shares p k =
      liquidity_stake_lp-IsBooked doc e addr (some shares) p k
  stake_if-IsBooked false e addr shares p k = k

  -- A deposit, staked or not, keeps the books.
  pub liquidity_deposit-IsBooked :
      (e : Env) (addr amount : ℕ) (stakes : Bool) (p : Pool)
      → IsBooked p
      → Ensures IsBooked (liquidity_deposit e addr amount stakes p)
  unfolding liquidity_deposit
  liquidity_deposit-IsBooked e addr amount stakes p k =
      Ensures-bind (λ r. IsBooked r.1) IsBooked
        (liquidity_deposit_inner e addr amount (not stakes) p) _
        (liquidity_deposit_inner-IsBooked e addr amount (not stakes) p k)
        λ r k1.
          Ensures-bind IsBooked IsBooked (add_deposit_history e addr r.0 amount stakes r.1) _
            (add_deposit_history-IsBooked e addr r.0 amount stakes r.1 k1)
            λ p2 k2. stake_if-IsBooked stakes e addr r.0 p2 k2

  -- A claim of yield keeps the books: it changes no tokens.
  pub liquidity_claim_yield-IsBooked :
      (e : Env) (addr : ℕ) (sends : Bool) (p : Pool)
      → IsBooked p
      → Ensures (λ r. IsBooked r.1) (liquidity_claim_yield e addr sends p)
  unfolding liquidity_claim_yield
  liquidity_claim_yield-IsBooked e addr sends p k =
      let Q : ℕ × Pool → Type 0 = λ r. IsBooked r.1 in
      Ensures-bind (SameTotals p.stats) Q (perform_lp_book_keeping e addr p) _
        (perform_lp_book_keeping-SameTotals doc e addr p k)
        λ p1 k1. Ensures-then Q (load_addr addr p1) _ λ a found.
          Ensures-then Q (total_yield a) _ λ total _.
            Ensures-then Q (context (non_zero total) no_yield_to_claim) _ λ claimed _.
              let l = load_addr_ok addr p1 found in
              let rest = record a {
                lp_accrued_yield = 0;
                xlp_accrued_yield = 0;
                crank_rewards = 0;
                referrer_rewards = 0;
              } in
              let same = same_entry addr a rest p1 k1.0 l refl refl (l.2 (k1.0.linear addr)) in
              Ensures-bind IsBooked Q (register_lp_claimed_yield claimed (save_addr addr rest p1)) _
                (register_lp_claimed_yield-IsBooked claimed (save_addr addr rest p1) same.0)
                λ p2 k2.
                  Ensures-bind IsBooked Q (send_yield sends e addr claimed p2) _
                    (send_yield-IsBooked sends e addr claimed p2 k2) λ p3 k3. k3

  -- Reinvesting yield keeps the books.
  pub reinvest_yield-IsBooked :
      (e : Env) (addr : ℕ) (o : Option ℕ) (stakes : Bool) (p : Pool)
      → IsBooked p
      → Ensures IsBooked (reinvest_yield e addr o stakes p)
  unfolding reinvest_yield
  reinvest_yield-IsBooked e addr o stakes p k =
      let Q : ℕ × Pool → Type 0 = λ r. IsBooked r.1 in
      Ensures-bind Q IsBooked (liquidity_claim_yield e addr false p) _
        (liquidity_claim_yield-IsBooked e addr false p k)
        λ r k1.
          Ensures-bind Q IsBooked (reinvested e addr r.0 o r.1) _
            (reinvested-IsBooked e addr r.0 o r.1 k1)
            λ t k2.
              Ensures-bind Q IsBooked (liquidity_deposit_inner e addr t.0 false t.1) _
                (liquidity_deposit_inner-IsBooked e addr t.0 false t.1 k2)
                λ d k3.
                  Ensures-bind IsBooked IsBooked (stake_if stakes e addr d.0 d.1) _
                    (stake_if-IsBooked stakes e addr d.0 d.1 k3)
                    λ p4 k4. add_action-IsBooked e addr _ (some d.0) t.0 p4 k4
