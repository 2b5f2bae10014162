-- ===== src/Vault/Reachable.antt =====
-- Every state of the vault: `instantiate` of contracts/vault/src/lib.rs and `execute` of
-- contracts/vault/src/execute.rs.
use levana_perps.Cosmwasm.{IsDocumented, Cosmwasm}
use levana_perps.Prelude.{
  ltb, msg_validation, ok, context, Ensures-then, failed, Ensures-ok, ensure, Ensures, ℕ, ◌≡◌, refl,
  Bool, not, List, [], arith,
}
use levana_perps.Vault.Properties.{execute_vault-IsSound}
use levana_perps.Vault.Books.{IsSound}
use levana_perps.Vault.Execute.{sum_bps, ExecuteMsg, execute}
use levana_perps.Vault.State.{Vault, Message, Chain, Info}
use levana_perps.Vault.Instantiate.{from_init, check_markets, InstantiateMsg, instantiate}

-- A state is reached by an instantiation and by messages that succeed.
pub data Reachable ⦃c : Cosmwasm⦄ : Vault → Type 0 where
  created :
      (e : Chain) (is_named : ℕ → Bool) (msg : InstantiateMsg) {v : Vault}
      → instantiate e is_named msg ≡ ok v
      → Reachable v
  stepped :
      (e : Chain) (info : Info) (msg : ExecuteMsg) (v : Vault) {done : Vault × List Message}
      → Reachable v
      → execute e info msg v ≡ ok done
      → Reachable done.0

instantiate-IsSound :
    (e : Chain) (is_named : ℕ → Bool) (msg : InstantiateMsg)
    → Ensures IsSound (instantiate e is_named msg)
unfolding instantiate
instantiate-IsSound e is_named msg =
    let bps = msg.markets_allocation_bps in
    Ensures-then IsSound (context (e.addr_validate msg.governance) msg_validation) _ λ governance _.
      Ensures-then IsSound (sum_bps 0 bps) _ λ total _.
        Ensures-then IsSound (ensure (not (ltb 10000 total)) failed) _ λ _ _.
          Ensures-then IsSound (check_markets e bps [] []) _ λ markets _.
            Ensures-then IsSound (from_init e is_named msg.usdc_denom) _ λ asset _. record {
              distinct = tt;
              total = refl;
              ordered = omega arith;
              pending = refl;
              fits = omega arith;
              marked = λ user id. refl;
            }

module _ ⦃c : Cosmwasm⦄ (doc : IsDocumented c) where
  -- In every state that a vault reaches from its instantiation by messages that succeed, the shares
  -- add up to their supply, the requests of the queue to the pending withdrawals, which fit in 128
  -- bits, the keys of the queue grow below the next one, and each request is marked as its user's
  -- alone.
  pub Reachable-IsSound : {v : Vault} → Reachable v → IsSound v
  Reachable-IsSound (created e is_named msg h) =
      Ensures-ok IsSound (instantiate e is_named msg) (instantiate-IsSound e is_named msg) h
  Reachable-IsSound (stepped e info msg v before h) =
      execute_vault-IsSound doc e info v msg (Reachable-IsSound before) h
