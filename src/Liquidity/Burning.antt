-- ===== src/Liquidity/Burning.antt =====
-- The burning of shares at a withdrawal, in contracts/market/src/state/liquidity.rs.
use levana_perps.Liquidity.Resetting.{least}
use levana_perps.Vault.Books.{shares}
use levana_perps.Cosmwasm.{eq_documented, IsDocumented, Cosmwasm, documented}
use levana_perps.Liquidity.Collateral.{Leaves}
use levana_perps.Liquidity.Stats.{total_tokens, lp_to_collateral_non_zero, total_collateral}
use levana_perps.Liquidity.State.{LiquidityStats, Env, no_liquidity}
use levana_perps.Liquidity.Provider.{burn_shares, clear_dust, min_unlocked_liquidity}
use levana_perps.Liquidity.Storage.{net_notional}
use levana_perps.Number.Exact.{checked_sub_ok, checked_add_ok}
use levana_perps.Number.Unsigned.{approx_eq, epsilon, checked_sub, checked_add}
use levana_perps.Prelude.{
  leb→le, leb, ◌==◌, insufficient_liquidity, Ensures-bind, failed, Result, Ensures-if, Ensures-ok,
  Ensures, Ensures-then, ok, ◌>>=◌, ensure-eq-ok, ensure, ℕ, ◌+◌, ◌-◌, ◌≤◌, ◌<◌, ◌≡◌, refl, ◌⊎◌,
  inl, inr, Bool, true, arith,
}

documented_dust :
    (n : ℕ) {b : Bool} → approx_eq ⦃c = documented⦄ n 0 ≡ ok b → b ≡ true → n < epsilon
unfolding approx_eq
documented_dust n h e = ground arith

module _ ⦃c : Cosmwasm⦄ where
  -- The unlocked liquidity that must remain for the open positions.
  abbrev pub least_now : Env → Result ℕ
  least_now e = net_notional e >>= λ net. min_unlocked_liquidity e net

  -- What a burn of shares that succeeds leaves, with what it returns.
  abbrev pub Burns : Result ℕ → ℕ → LiquidityStats → ℕ × LiquidityStats → Type 0
  Burns minimum shares s r =
      (lp_to_collateral_non_zero s shares ≡ ok r.0)
      × Leaves minimum (s.unlocked - r.0)
      × (r.0 ≤ s.unlocked)
      × (((r.1 ≡ record s { total_lp = s.total_lp - shares; unlocked = s.unlocked - r.0 })
            × (shares < s.total_lp + s.total_xlp))
          ⊎ ((r.1 ≡ no_liquidity)
              × (s.total_lp ≡ shares)
              × (s.total_xlp ≡ 0)
              × (s.locked + s.unlocked < r.0 + epsilon)))

-- The totals where tokens are left, and no liquidity where the last tokens are gone, with less than
-- the tolerance of collateral.
abbrev Cleared : LiquidityStats → LiquidityStats → Type 0
Cleared s t =
    ((t ≡ s) × (0 < s.total_lp + s.total_xlp))
    ⊎ ((t ≡ no_liquidity)
        × (s.total_lp ≡ 0)
        × (s.total_xlp ≡ 0)
        × (s.locked + s.unlocked < epsilon))

module _ ⦃c : Cosmwasm⦄ (doc : IsDocumented c) where
  dust_lem : (n : ℕ) {b : Bool} → approx_eq n 0 ≡ ok b → b ≡ true → n < epsilon
  dust_lem = rw (eq_documented doc) documented_dust

  clear_dust-Cleared : (s : LiquidityStats) → Ensures (Cleared s) (clear_dust s)
  unfolding clear_dust total_tokens total_collateral
  clear_dust-Cleared s =
      let Q = Cleared s in
      Ensures-then Q (checked_add s.total_lp s.total_xlp) _ λ tokens sum.
        let all = checked_add_ok doc s.total_lp s.total_xlp sum in
        Ensures-if Q (tokens == 0) _ _
          (λ nothing. Ensures-then Q (checked_add s.locked s.unlocked) _ λ collateral csum.
            Ensures-then Q (approx_eq collateral 0) _ λ dust is_dust.
              Ensures-then Q (ensure dust failed) _ λ _ small.
                let tiny : collateral < epsilon =
                  dust_lem collateral is_dust (ensure-eq-ok dust failed small) in
                inr (
                  refl,
                  ground (arith, nothing, all),
                  ground (arith, nothing, all),
                  omega (arith, tiny, checked_add_ok doc s.locked s.unlocked csum),
                ))
          λ some_left. inl (refl, ground (arith, some_left, all))

  enough_left :
      (x least : ℕ) (s : LiquidityStats) (needed : ℕ) {u : Unit {0}}
      → needed ≡ x + least
      → ensure (leb needed s.unlocked) insufficient_liquidity ≡ ok u
      → x + least ≤ s.unlocked
  enough_left x least s needed total h =
      let bound =
        leb→le needed s.unlocked (ensure-eq-ok (leb needed s.unlocked) insufficient_liquidity h) in
      omega (arith, bound, total)

  burnt_totals :
      (minimum : Result ℕ) (shares x least total_lp unlocked : ℕ) (s t : LiquidityStats)
      → lp_to_collateral_non_zero s shares ≡ ok x
      → minimum ≡ ok least
      → x + least ≤ s.unlocked
      → total_lp + shares ≡ s.total_lp
      → unlocked + x ≡ s.unlocked
      → Cleared (record s { total_lp = total_lp; unlocked = unlocked }) t
      → Burns minimum shares s (x, t)
  burnt_totals minimum shares x least total_lp unlocked s t worth computed bound less left cleared =
      (worth, (least, computed, omega (arith, bound)), omega (arith, bound), kinds cleared)
    where
      kinds :
          Cleared (record s { total_lp = total_lp; unlocked = unlocked }) t
          → ((t ≡ record s { total_lp = s.total_lp - shares; unlocked = s.unlocked - x })
              × (shares < s.total_lp + s.total_xlp))
            ⊎ ((t ≡ no_liquidity)
                × (s.total_lp ≡ shares)
                × (s.total_xlp ≡ 0)
                × (s.locked + s.unlocked < x + epsilon))
      kinds (inl (same, some_left)) =
          let lp : s.total_lp - shares ≡ total_lp = omega (arith, less) in
          let rest : s.unlocked - x ≡ unlocked = omega (arith, left) in
          inl (rw (lp, rest) same, omega (arith, less, some_left))
      kinds (inr (gone, no_lp, no_xlp, tiny)) =
          inr (gone, omega (arith, less, no_lp), no_xlp, omega (arith, left, tiny))

  burn_shares-Burns :
      (e : Env) (shares : ℕ) (s : LiquidityStats)
      → Ensures (Burns (least_now e) shares s) (burn_shares e shares s)
  unfolding burn_shares
  burn_shares-Burns e shares s =
      let Q = Burns (least_now e) shares s in
      Ensures-then Q (total_collateral s) _ λ _ _.
        Ensures-then Q (lp_to_collateral_non_zero s shares) _ λ x worth.
          Ensures-then Q (net_notional e) _ λ net has_net.
            Ensures-then Q (min_unlocked_liquidity e net) _ λ least minimum.
              Ensures-then Q (checked_add x least) _ λ needed sum.
                Ensures-then Q (ensure (leb needed s.unlocked) insufficient_liquidity) _ λ _ enough.
                  Ensures-then Q (checked_sub s.total_lp shares) _ λ total_lp less.
                    Ensures-then Q (checked_sub s.unlocked x) _ λ unlocked left.
                      let t = record s { total_lp = total_lp; unlocked = unlocked } in
                      Ensures-bind (Cleared t) Q (clear_dust t) _ (clear_dust-Cleared t)
                        λ r cleared.
                          burnt_totals (least_now e) shares x least total_lp unlocked s r worth
                            (rw has_net minimum)
                            (enough_left x least s needed (checked_add_ok doc x least sum) enough)
                            (checked_sub_ok doc s.total_lp shares less)
                            (checked_sub_ok doc s.unlocked x left) cleared

  -- A burn of shares that succeeds returns the collateral that they are worth, out of the unlocked
  -- part, of which the minimum that the open positions demand stays. Where LP or xLP tokens are left,
  -- the totals lose the shares and the collateral, and nothing else; where these were the last tokens,
  -- the collateral that is left is less than the tolerance, and the totals are all 0.
  pub burn_shares_lem :
      (e : Env) (shares : ℕ) (s : LiquidityStats) {returned : ℕ} {t : LiquidityStats}
      → burn_shares e shares s ≡ ok (returned, t)
      → Burns (least_now e) shares s (returned, t)
  burn_shares_lem e shares s h =
      Ensures-ok (Burns (least_now e) shares s) (burn_shares e shares s)
        (burn_shares-Burns e shares s) h
