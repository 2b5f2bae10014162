-- ===== src/Vault/Sharing.antt =====
-- The shares that the deposits of contracts/vault/src/execute.rs mint.
use native.Mathlib.Nat.{div-mul-le_self}
use levana_perps.Cosmwasm.{documented, Cosmwasm, IsDocumented, eq_documented}
use levana_perps.Prelude.Dict.{save}
use levana_perps.Vault.Books.{IsSound, rebalanced}
use levana_perps.Vault.State.{Message, to_string, Info, Vault, Chain, lp_balance}
use levana_perps.Vault.Common.{check_not_paused, get_total_assets}
use levana_perps.Vault.Execute.{one_coin, mint_lp, execute_deposit}
use levana_perps.Cw20.Supply.{held}
use levana_perps.Prelude.{
  ◌==◌, Ensures-bind, Ensures-if, Ensures-then, refl, List, Ensures, context, Ensures-map, panic,
  ok, ◌<◌, ℕ, ◌+◌, ◌-◌, ◌*◌, ◌≤◌, ◌≡◌, subst, arith,
}

minted_share :
    (amount supply assets minted : ℕ)
    → amount ≤ assets
    → minted * assets ≤ amount * supply
    → (supply + minted) * (assets - amount) ≤ supply * assets
minted_share amount supply assets minted part h =
    let rest = assets - amount in
    let whole : amount + rest ≡ assets = omega arith in
    let bound : minted * (amount + rest) ≤ amount * supply = rw whole h in
    let worth : (supply + minted) * rest ≤ supply * (amount + rest) = omega (arith, bound) in
    subst (λ n. (supply + minted) * rest ≤ supply * n) whole worth

documented_ratio :
    (a b d : ℕ)
    → Ensures (λ r. r * d ≤ a * b) (context (documented.uint128_multiply_ratio a b d) panic)
documented_ratio a b d = ground (arith, div-mul-le_self (a * b) d)

documented_add : (a b : ℕ) {r : ℕ} → context (documented.uint128_add a b) panic ≡ ok r → r ≡ a + b
documented_add a b h = ground arith

module _ ⦃c : Cosmwasm⦄ (doc : IsDocumented c) where
  pub ratio_bound :
      (a b d : ℕ) → Ensures (λ r. r * d ≤ a * b) (context (c.uint128_multiply_ratio a b d) panic)
  ratio_bound = rw (eq_documented doc) documented_ratio

  pub uint128_add_ok : (a b : ℕ) {r : ℕ} → context (c.uint128_add a b) panic ≡ ok r → r ≡ a + b
  uint128_add_ok = rw (eq_documented doc) documented_add

  -- What `mint_lp` leaves.
  pub mint_lp_lem :
      (user lp_amount : ℕ) (v : Vault)
      → Ensures
          (λ w. w ≡ record v {
            lp_balances = save user (lp_balance v user + lp_amount) v.lp_balances;
            total_lp_supply = v.total_lp_supply + lp_amount;
          })
          (mint_lp user lp_amount v)
  unfolding mint_lp
  mint_lp_lem user lp_amount v =
      let P : Vault → Type 0 = λ w. w ≡ record v {
        lp_balances = save user (lp_balance v user + lp_amount) v.lp_balances;
        total_lp_supply = v.total_lp_supply + lp_amount;
      } in
      Ensures-then P (context (c.uint128_add (lp_balance v user) lp_amount) panic) _ λ more grows.
        Ensures-then P (context (c.uint128_add v.total_lp_supply lp_amount) panic) _ λ supply adds.
          rw
            (
              uint128_add_ok (lp_balance v user) lp_amount grows,
              uint128_add_ok v.total_lp_supply lp_amount adds,
            )
            refl

  pub mint_lp-IsSound :
      (user lp_amount : ℕ) (v : Vault) → IsSound v → Ensures IsSound (mint_lp user lp_amount v)
  mint_lp-IsSound user lp_amount v s =
      Ensures-map _ IsSound (mint_lp user lp_amount v) (mint_lp_lem user lp_amount v) λ w e. rw e (
        rebalanced user (lp_balance v user + lp_amount) (v.total_lp_supply + lp_amount) v s
          (omega arith))

  -- A deposit into a vault that has shares never lowers what a share is worth: the old shares are
  -- worth, of all the assets after it, at least what they were worth of the assets before it, those
  -- less the deposit. The balance that the chain answers already holds the deposit.
  pub execute_deposit_lem :
      (e : Chain) (info : Info) (v : Vault) (amount assets : ℕ)
      → one_coin (to_string v.config.usdc_denom) info.funds ≡ ok amount
      → get_total_assets e v ≡ ok assets
      → amount ≤ assets
      → 0 < v.total_lp_supply
      → Ensures
          (λ r. r.0.total_lp_supply * (assets - amount) ≤ v.total_lp_supply * assets)
          (execute_deposit e info v)
  unfolding execute_deposit
  execute_deposit_lem e info v amount assets sent held part some_shares =
      let Q : Vault × List Message → Type 0 =
        λ r. r.0.total_lp_supply * (assets - amount) ≤ v.total_lp_supply * assets in
      let R : ℕ → Type 0 = λ lp. lp * assets ≤ amount * v.total_lp_supply in
      Ensures-then Q (check_not_paused v.config) _ λ _ _.
        rw (sent, held)
          (Ensures-bind R Q _ _
            (Ensures-if R (v.total_lp_supply == 0) _ _
              (λ none_yet. absurd (ground (arith, none_yet)))
              λ _. ratio_bound amount v.total_lp_supply assets)
            λ lp bound.
              Ensures-bind _ Q (mint_lp info.sender lp v) _ (mint_lp_lem info.sender lp v)
                λ w e. rw e (minted_share amount v.total_lp_supply assets lp part bound))
