-- ===== src/Liquidity/Shares.antt =====
-- The value of shares: `lp_to_collateral` and `collateral_to_lp` of
-- packages/perpswap/src/contracts/market/liquidity.rs.
use levana_perps.Liquidity.StakingBooks.{non_zero_positive}
use levana_perps.Liquidity.Linear.{times_lt}
use levana_perps.Number.NonZero.{non_zero}
use levana_perps.Number.Exact.{non_zero_ok, checked_add_ok}
use levana_perps.Number.Unsigned.{checked_add, approx_eq}
use levana_perps.Cw20.Supply.{held}
use levana_perps.Cw20.Ledger.{burn, mint}
use levana_perps.Cosmwasm.{Cosmwasm, one, IsDocumented, documented, eq_documented}
use levana_perps.Liquidity.Stats.{
  total_tokens, lp_to_collateral, collateral_to_lp, total_collateral, share,
}
use levana_perps.Liquidity.State.{LiquidityStats}
use levana_perps.Prelude.{
  subst, if◌then◌else◌, ◌==◌, Ensures-bind, context, Ensures-if, Ensures-of, Ensures-then,
  Ensures-ok, ◌>>=◌, ensure, failed, ◌-◌, ◌<◌, true, not, Ensures, ok, ℕ, ◌+◌, ◌*◌, ◌/◌, ◌≤◌, ◌≡◌,
  arith,
}
use native.Mathlib.Nat.{mul-le-mul, le_refl, div-mul-le_self}
use native.Mathlib.Decide.{dec_lt}

abbrev collateral_of : LiquidityStats → ℕ
collateral_of s = s.locked + s.unlocked

abbrev tokens_of : LiquidityStats → ℕ
tokens_of s = s.total_lp + s.total_xlp

share_floor : (total part whole : ℕ) → total * part / one * one / whole * whole ≤ total * part
share_floor total part whole =
    omega
      (arith, div-mul-le_self (total * part / one * one) whole, div-mul-le_self (total * part) one)

documented_share :
    (total part whole : ℕ) {r : ℕ}
    → share ⦃c = documented⦄ total part whole ≡ ok r
    → r ≡ total * part / one * one / whole
unfolding share
documented_share total part whole h = ground arith

pub below_product : (x y d : ℕ) → 0 < d → x * d ≤ y * d → x ≤ y
below_product x y d some_d h = elim (dec_lt y x) [
  | yes more ↦ let grows : d * y < d * x = times_lt d y x some_d more in absurd (omega arith)
  | no less ↦ omega arith
]

rest_worth : (y x l k : ℕ) → x * (l + k) ≤ (y + x) * l → (y + x) * k ≤ y * (l + k)
rest_worth y x l k h = omega (arith, h)

-- What is left is worth no less per share than what was there.
differences : (m t l x : ℕ) → l ≤ t → x ≤ m → x * t ≤ m * l → m * (t - l) ≤ (m - x) * t
differences m t l x part some_left h =
    let whole : l + (t - l) ≡ t = omega arith in
    let all : (m - x) + x ≡ m = omega arith in
    let short : ((m - x) + x) * (t - l) ≤ (m - x) * (l + (t - l)) =
      rest_worth (m - x) x l (t - l) (rw (whole, all) h) in
    subst (λ n. n * (t - l) ≤ (m - x) * t) all
      (subst (λ n. ((m - x) + x) * (t - l) ≤ (m - x) * n) whole short)

module _ ⦃c : Cosmwasm⦄ (doc : IsDocumented c) where
  share_value :
      (total part whole : ℕ) {r : ℕ}
      → share total part whole ≡ ok r
      → r ≡ total * part / one * one / whole
  share_value = rw (eq_documented doc) documented_share

  share_bound :
      (total part whole : ℕ) → Ensures (λ r. r * whole ≤ total * part) (share total part whole)
  share_bound total part whole =
      Ensures-of (λ r. r * whole ≤ total * part) (share total part whole)
        λ r h. rw (share_value total part whole h) (share_floor total part whole)

  -- The shares of a deposit are at most the tokens times its part of the collateral.
  minted_bound :
      (s : LiquidityStats) (amount : ℕ)
      → Ensures
          (λ shares. (0 < shares) × (shares * collateral_of s ≤ tokens_of s * amount))
          (collateral_to_lp s amount)
  unfolding collateral_to_lp total_collateral total_tokens
  minted_bound s amount =
      let Q : ℕ → Type 0 =
        λ shares. (0 < shares) × (shares * collateral_of s ≤ tokens_of s * amount) in
      let R : ℕ → Type 0 = λ lp. lp * collateral_of s ≤ tokens_of s * amount in
      Ensures-then Q (checked_add s.locked s.unlocked) _ λ collateral sum.
        let all = checked_add_ok doc s.locked s.unlocked sum in
        Ensures-bind R Q
          (if collateral == 0
            then ok amount
            else (checked_add s.total_lp s.total_xlp >>= λ tokens. share tokens amount collateral))
          _
          (Ensures-if R (collateral == 0) _ _
            (λ nothing. nothing_held amount collateral nothing (tokens_of s * amount) all)
            λ _. Ensures-then R (checked_add s.total_lp s.total_xlp) _ λ tokens tsum.
              rw (← checked_add_ok doc s.total_lp s.total_xlp tsum, ← all)
                (share_bound tokens amount collateral))
          λ lp bound.
            Ensures-of Q (context (non_zero lp) failed)
              λ shares h. (non_zero_positive lp failed h, rw (non_zero_ok lp failed h) bound)
    where
      nothing_held :
          (x held : ℕ)
          → (held == 0) ≡ true
          → (y : ℕ) → held ≡ collateral_of s
          → x * collateral_of s ≤ y
      nothing_held x held nothing y all = rw (← all) (ground (arith, nothing))

  -- The collateral of shares is at most the collateral times their part of the tokens.
  worth_bound :
      (s : LiquidityStats) (lp : ℕ)
      → Ensures (λ x. x * tokens_of s ≤ collateral_of s * lp) (lp_to_collateral s lp)
  unfolding lp_to_collateral total_collateral total_tokens
  worth_bound s lp =
      let Q : ℕ → Type 0 = λ x. x * tokens_of s ≤ collateral_of s * lp in
      Ensures-if Q (lp == 0) _ _ (λ _. omega arith)
        λ _. Ensures-then Q (checked_add s.locked s.unlocked) _ λ collateral sum.
          Ensures-then Q (approx_eq collateral 0) _ λ none_left _.
            Ensures-then Q (ensure (not none_left) failed) _ λ _ _.
              Ensures-then Q (checked_add s.total_lp s.total_xlp) _ λ tokens tsum.
                rw
                  (
                    ← checked_add_ok doc s.total_lp s.total_xlp tsum,
                    ← checked_add_ok doc s.locked s.unlocked sum,
                  )
                  (share_bound collateral lp tokens)

  -- A deposit that mints shares mints some, and never lowers the value of a share: the collateral
  -- after it, times the tokens before it, is at least the collateral before it times the tokens
  -- after it.
  pub collateral_to_lp_fair :
      (s : LiquidityStats) (amount : ℕ) {shares : ℕ}
      → collateral_to_lp s amount ≡ ok shares
      → (0 < shares)
        × (collateral_of s * (tokens_of s + shares) ≤ (collateral_of s + amount) * tokens_of s)
  collateral_to_lp_fair s amount h =
      let (some_shares, bound) =
        Ensures-ok _ (collateral_to_lp s amount) (minted_bound s amount) h in
      (some_shares, omega (arith, bound))

  -- If a deposit mints shares, and these are burnt in the pool that has grown by the deposit and the
  -- shares, they return no more than was deposited.
  pub deposit_withdraw_lem :
      (s : LiquidityStats) (amount : ℕ) {shares returned : ℕ}
      → collateral_to_lp s amount ≡ ok shares
      → lp_to_collateral
          (record s { total_lp = s.total_lp + shares; unlocked = s.unlocked + amount })
          shares
        ≡ ok returned
      → returned ≤ amount
  deposit_withdraw_lem s amount {shares} {returned} mint burn =
      let t = record s { total_lp = s.total_lp + shares; unlocked = s.unlocked + amount } in
      let (some_shares, minted) =
        Ensures-ok _ (collateral_to_lp s amount) (minted_bound s amount) mint in
      let worth : returned * tokens_of t ≤ collateral_of t * shares =
        Ensures-ok _ (lp_to_collateral t shares) (worth_bound t shares) burn in
      below_product returned amount (tokens_of t) (omega arith) (omega (arith, worth, minted))

  -- The shares of the pool are worth no more than its collateral.
  pub lp_to_collateral_bounded :
      (s : LiquidityStats) (lp : ℕ) {returned : ℕ}
      → 0 < tokens_of s
      → lp ≤ tokens_of s
      → lp_to_collateral s lp ≡ ok returned
      → returned ≤ collateral_of s
  lp_to_collateral_bounded s lp {returned} some_tokens part h =
      let worth : returned * tokens_of s ≤ collateral_of s * lp =
        Ensures-ok _ (lp_to_collateral s lp) (worth_bound s lp) h in
      let all : collateral_of s * lp ≤ collateral_of s * tokens_of s =
        mul-le-mul (le_refl (collateral_of s)) part in
      below_product returned (collateral_of s) (tokens_of s) some_tokens (omega (arith, worth, all))

  -- Shares that are no more than the tokens are worth so much that paying it never lowers the value
  -- of a share: the collateral left, times the tokens before, is at least the collateral before
  -- times the tokens left.
  pub lp_to_collateral_fair :
      (s : LiquidityStats) (lp : ℕ) {returned : ℕ}
      → lp ≤ tokens_of s
      → lp_to_collateral s lp ≡ ok returned
      → collateral_of s * (tokens_of s - lp) ≤ (collateral_of s - returned) * tokens_of s
  lp_to_collateral_fair s lp {returned} part h = elim (dec_lt 0 (tokens_of s)) [
    | yes some_tokens ↦
        differences (collateral_of s) (tokens_of s) lp returned part
          (lp_to_collateral_bounded s lp some_tokens part h)
          (Ensures-ok _ (lp_to_collateral s lp) (worth_bound s lp) h)
    | no none_left ↦ let nothing : tokens_of s - lp ≡ 0 = omega arith in rw nothing (omega arith)
  ]
