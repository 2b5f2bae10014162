-- ===== src/Liquidity/WithdrawBooks.antt =====
-- The books of the pool under a withdrawal, in contracts/market/src/state/liquidity.rs.
use levana_perps.Cosmwasm.{IsDocumented, Cosmwasm}
use levana_perps.Liquidity.Working.{open_entry}
use levana_perps.Liquidity.StakingBooks.{write_both}
use levana_perps.Liquidity.Keeping.{perform_lp_book_keeping}
use levana_perps.Liquidity.Books.{IsBooked}
use levana_perps.Liquidity.Stats.{total_collateral, total_tokens, lp_to_collateral_non_zero}
use levana_perps.Liquidity.Frames.{add_transfer-IsBooked}
use levana_perps.Liquidity.State.{LiquidityStats, Env, LpActionKind, Pool}
use levana_perps.Liquidity.Provider.{
  burn_shares, pay_out, requested, clear_dust, ensure_liquidity_cooldown, liquidity_withdraw,
  min_unlocked_liquidity,
}
use levana_perps.Liquidity.KeepsBooks.{
  add_action-IsBooked, perform_lp_book_keeping-SameTotals, load_addr_ok, SameTotals,
}
use levana_perps.Liquidity.Storage.{
  load_addr, save_stats, add_action, add_transfer, save_addr, pool_size_events,
  collateral_to_usd_non_zero, net_notional,
}
use levana_perps.Number.NonZero.{non_zero}
use levana_perps.Number.Exact.{checked_add_ok, checked_sub_ok}
use levana_perps.Number.Unsigned.{approx_eq, checked_sub, checked_add}
use levana_perps.Prelude.{
  ◌+◌, ◌==◌, leb, ensure, insufficient_liquidity, failed, context, Ensures, Ensures-then,
  Ensures-bind, Ensures-if, ℕ, ◌≡◌, refl, Option, some, arith,
}

abbrev pub SameTokens : LiquidityStats → LiquidityStats → Type 0
SameTokens s t = (t.total_lp ≡ s.total_lp) × (t.total_xlp ≡ s.total_xlp)

module _ ⦃c : Cosmwasm⦄ (doc : IsDocumented c) where
  clear_dust-SameTokens : (s : LiquidityStats) → Ensures (SameTokens s) (clear_dust s)
  unfolding clear_dust total_tokens
  clear_dust-SameTokens s =
      Ensures-then (SameTokens s) (checked_add s.total_lp s.total_xlp) _ λ tokens sum.
        let all = checked_add_ok doc s.total_lp s.total_xlp sum in
        Ensures-if (SameTokens s) (tokens == 0) _ _
          (λ nothing. Ensures-then (SameTokens s) (total_collateral s) _ λ collateral _.
            Ensures-then (SameTokens s) (approx_eq collateral 0) _ λ dust _.
              Ensures-then (SameTokens s) (ensure dust failed) _
                λ _ _. (ground (arith, nothing, all), ground (arith, nothing, all)))
          λ _. (refl, refl)

  -- The totals lose the shares.
  abbrev Burnt : ℕ → LiquidityStats → ℕ × LiquidityStats → Type 0
  Burnt shares s r = (r.1.total_lp + shares ≡ s.total_lp) × (r.1.total_xlp ≡ s.total_xlp)

  burn_shares-Burnt :
      (e : Env) (shares : ℕ) (s : LiquidityStats)
      → Ensures (Burnt shares s) (burn_shares e shares s)
  unfolding burn_shares
  burn_shares-Burnt e shares s =
      let Q = Burnt shares s in
      Ensures-then Q (total_collateral s) _ λ _ _.
        Ensures-then Q (lp_to_collateral_non_zero s shares) _ λ to_return _.
          Ensures-then Q (net_notional e) _ λ net _.
            Ensures-then Q (min_unlocked_liquidity e net) _ λ min_unlocked _.
              Ensures-then Q (checked_add to_return min_unlocked) _ λ needed _.
                Ensures-then Q (ensure (leb needed s.unlocked) insufficient_liquidity) _ λ _ _.
                  Ensures-then Q (checked_sub s.total_lp shares) _ λ total_lp less.
                    Ensures-then Q (checked_sub s.unlocked to_return) _ λ unlocked _.
                      let t = record s { total_lp = total_lp; unlocked = unlocked } in
                      Ensures-bind (SameTokens t) Q (clear_dust t) _ (clear_dust-SameTokens t)
                        λ r same.
                          (omega (arith, same.0, checked_sub_ok doc s.total_lp shares less), same.1)

  pay_out-IsBooked :
      (e : Env) (addr shares to_return : ℕ) (s : LiquidityStats) (p : Pool)
      → Ensures IsBooked (save_stats s p)
      → Ensures IsBooked (pay_out e addr shares to_return s p)
  unfolding pay_out
  pay_out-IsBooked e addr shares to_return s p saved =
      Ensures-bind IsBooked IsBooked (save_stats s p) _ saved λ p1 k1.
        Ensures-then IsBooked (pool_size_events e s) _ λ _ _.
          Ensures-bind IsBooked IsBooked (add_transfer addr to_return p1) _
            (add_transfer-IsBooked addr to_return p1 k1)
            λ p2 k2.
              Ensures-bind IsBooked IsBooked
                (add_action e addr LpActionKind.withdraw (some shares) to_return p2) _
                (add_action-IsBooked e addr LpActionKind.withdraw (some shares) to_return p2 k2)
                λ p3 k3. Ensures-then IsBooked (collateral_to_usd_non_zero e to_return) _ λ _ _. k3

  -- A withdrawal keeps the books: the shares leave the provider and the total.
  pub liquidity_withdraw-IsBooked :
      (e : Env) (addr : ℕ) (o : Option ℕ) (p : Pool)
      → IsBooked p
      → Ensures IsBooked (liquidity_withdraw e addr o p)
  unfolding liquidity_withdraw save_addr
  liquidity_withdraw-IsBooked e addr o p k =
      Ensures-bind (SameTotals p.stats) IsBooked (perform_lp_book_keeping e addr p) _
        (perform_lp_book_keeping-SameTotals doc e addr p k)
        λ p1 k1. Ensures-then IsBooked (load_addr addr p1) _ λ a found.
          Ensures-then IsBooked (ensure_liquidity_cooldown e a) _ λ _ _.
            Ensures-then IsBooked (context (non_zero a.lp) failed) _ λ old _.
              Ensures-then IsBooked (requested old o) _ λ shares _.
                Ensures-then IsBooked (checked_sub a.lp shares) _ λ lp sub.
                  Ensures-bind (Burnt shares p1.stats) IsBooked (burn_shares e shares p1.stats) _
                    (burn_shares-Burnt e shares p1.stats)
                    λ r burnt.
                      let w = open_entry addr a p1 k1.0 (load_addr_ok addr p1 found) in
                      let b = record a { lp = lp } in
                      pay_out-IsBooked e addr shares r.0 r.1 (save_addr addr b p1) (
                        write_both addr a b r.1 p1 w w.unstaking
                          (omega (arith, burnt.0, checked_sub_ok doc a.lp shares sub))
                          (omega (arith, burnt.1)))
