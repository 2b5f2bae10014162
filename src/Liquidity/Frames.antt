-- ===== src/Liquidity/Frames.antt =====
-- The steps of deposits, withdrawals and claims that touch no entry, in
-- contracts/market/src/state/liquidity.rs.
use levana_perps.Prelude.Dict.{save}
use levana_perps.Cosmwasm.{Cosmwasm}
use levana_perps.Liquidity.Keeping.{plus_seconds}
use levana_perps.Liquidity.Books.{frame-IsBooked, IsBooked}
use levana_perps.Liquidity.State.{AddrStats, LpActionKind, Env, Pool}
use levana_perps.Liquidity.Provider.{send_yield, reinvested, cooldown, register_lp_claimed_yield}
use levana_perps.Liquidity.KeepsBooks.{add_action-IsBooked}
use levana_perps.Liquidity.Storage.{
  transfer_total, add_claim_history, add_deposit_history, add_action, collateral_to_usd,
  add_transfer, add_summary_yield, add_summary_deposit,
}
use levana_perps.Number.Unsigned.{checked_sub, checked_add}
use levana_perps.Prelude.{
  ◌==◌, Ensures, to_option, Ensures-then, insufficient_for_reinvest, Ensures-bind, Ensures-if,
  context, ℕ, ◌≡◌, refl, Bool, true, false, Option, none, some,
}

-- A cooldown changes no tokens.
abbrev pub Cools : AddrStats → AddrStats → Type 0
Cools a b = (b.lp ≡ a.lp) × (b.xlp ≡ a.xlp) × (b.unstaking ≡ a.unstaking)

module _ ⦃c : Cosmwasm⦄ where
  pub add_transfer-IsBooked :
      (addr amount : ℕ) (p : Pool) → IsBooked p → Ensures IsBooked (add_transfer addr amount p)
  unfolding add_transfer
  add_transfer-IsBooked addr amount p k =
      Ensures-then IsBooked (transfer_total addr amount p) _ λ total _.
        frame-IsBooked p.fees p.yields p.history p.summaries (save addr total p.transfers) p k

  pub add_claim_history-IsBooked :
      (e : Env) (addr amount : ℕ) (p : Pool)
      → IsBooked p
      → Ensures IsBooked (add_claim_history e addr amount p)
  unfolding add_claim_history add_summary_yield
  add_claim_history-IsBooked e addr amount p k =
      Ensures-bind IsBooked IsBooked (add_action e addr LpActionKind.claim_yield none amount p) _
        (add_action-IsBooked e addr LpActionKind.claim_yield none amount p k)
        λ p1 k1. Ensures-then IsBooked (collateral_to_usd e amount) _ λ worth _.
          Ensures-then IsBooked (checked_add _ amount) _ λ total _.
            Ensures-then IsBooked (checked_add _ worth) _
              λ total_usd _. frame-IsBooked p1.fees p1.yields p1.history _ p1.transfers p1 k1

  pub add_deposit_history-IsBooked :
      (e : Env) (addr tokens amount : ℕ) (is_xlp : Bool) (p : Pool)
      → IsBooked p
      → Ensures IsBooked (add_deposit_history e addr tokens amount is_xlp p)
  unfolding add_deposit_history add_summary_deposit
  add_deposit_history-IsBooked e addr tokens amount is_xlp p k =
      Ensures-bind IsBooked IsBooked (add_action e addr _ (some tokens) amount p) _
        (add_action-IsBooked e addr _ (some tokens) amount p k)
        λ p1 k1. Ensures-then IsBooked (collateral_to_usd e amount) _ λ worth _.
          Ensures-then IsBooked (checked_add _ amount) _ λ total _.
            Ensures-then IsBooked (checked_add _ worth) _
              λ total_usd _. frame-IsBooked p1.fees p1.yields p1.history _ p1.transfers p1 k1

  pub cooldown-Cools :
      (e : Env) (start : Bool) (a : AddrStats) → Ensures (Cools a) (cooldown e start a)
  unfolding cooldown
  cooldown-Cools e true a =
      Ensures-then (Cools a) (plus_seconds e.now e.liquidity_cooldown_seconds) _
        λ ends _. (refl, refl, refl)
  cooldown-Cools e false a = (refl, refl, refl)

  pub register_lp_claimed_yield-IsBooked :
      (amount : ℕ) (p : Pool) → IsBooked p → Ensures IsBooked (register_lp_claimed_yield amount p)
  unfolding register_lp_claimed_yield
  register_lp_claimed_yield-IsBooked amount p k =
      Ensures-then IsBooked (checked_sub p.fees.wallets amount) _
        λ wallets _. frame-IsBooked _ p.yields p.history p.summaries p.transfers p k

  pub send_yield-IsBooked :
      (sends : Bool) (e : Env) (addr amount : ℕ) (p : Pool)
      → IsBooked p
      → Ensures IsBooked (send_yield sends e addr amount p)
  unfolding send_yield
  send_yield-IsBooked true e addr amount p k =
      Ensures-bind IsBooked IsBooked (add_transfer addr amount p) _
        (add_transfer-IsBooked addr amount p k)
        λ p1 k1. add_claim_history-IsBooked e addr amount p1 k1
  send_yield-IsBooked false e addr amount p k = k

  pub reinvested-IsBooked :
      (e : Env) (addr claimed : ℕ) (o : Option ℕ) (p : Pool)
      → IsBooked p
      → Ensures (λ r. IsBooked r.1) (reinvested e addr claimed o p)
  unfolding reinvested
  reinvested-IsBooked e addr claimed none p k = k
  reinvested-IsBooked e addr claimed (some amount) p k =
      Ensures-then (λ r. IsBooked r.1)
        (context (to_option (checked_sub claimed amount)) insufficient_for_reinvest) _
        λ remainder _.
          Ensures-if (λ r. IsBooked r.1) (remainder == 0) _ _ (λ _. k)
            λ _.
              Ensures-bind IsBooked (λ r. IsBooked r.1) (add_transfer addr remainder p) _
                (add_transfer-IsBooked addr remainder p k)
                λ p1 k1.
                  Ensures-bind IsBooked (λ r. IsBooked r.1) (add_claim_history e addr remainder p1)
                    _ (add_claim_history-IsBooked e addr remainder p1 k1) λ p2 k2. k2
