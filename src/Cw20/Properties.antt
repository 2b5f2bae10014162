-- ===== src/Cw20/Properties.antt =====
-- A whole call of the token: `execute` of contracts/cw20/src/contract.rs, and `transfer`.
use levana_perps.Cosmwasm.{IsDocumented, Cosmwasm}
use levana_perps.Prelude.{
  Option-cases, if◌then◌else◌, ◌==◌, leb, Bool-cases, underflow, Ensures-then, Ensures-ok,
  not_found, auth, err, context, cw20_funds, ok, ◌>>◌, ensure, ℕ, ◌≡◌, refl, inl, inr, none,
}
use levana_perps.Cw20.Methods.{
  increase_allowance-IsSound, send_with_msg-IsSound, decrease_allowance-IsSound, set_minter-IsSound,
  burn_from-IsSound, transfer_from-IsSound, send_with_msg_from-IsSound, transfer-IsSound,
  burn-IsSound, mint-IsSound,
}
use levana_perps.Cw20.Supply.{moved, move_lem, IsSound}
use levana_perps.Cw20.State.{add_output, balance, transfer_event, Token, minter_addr}
use levana_perps.Cw20.Ledger.{transfer}
use levana_perps.Cw20.Keeps.{market-IsSound, Keeps, add_output-IsSound}
use levana_perps.Cw20.Execute.{
  ExecuteMsg, update_minter, increase_allowance_msg, mint_msg, burn_from_msg,
  decrease_allowance_msg, set_market, Env, send_msg, burn_msg, send_from_msg, dispatch,
  assert_trading_competition, execute, set_market_addr, transfer_msg, transfer_from_msg,
}

module _ ⦃c : Cosmwasm⦄ (doc : IsDocumented c) {X : Type 0} where
  set_market_addr-IsSound :
      (market : ℕ) (t : Token X) → IsSound t → Keeps (set_market_addr market t)
  unfolding set_market_addr
  set_market_addr-IsSound market t s = elim (Option-cases t.market_address) [
    | inl unset ↦ rw unset (market-IsSound market t s)
    | inr (old, e) ↦ rw e tt
  ]

  dispatch-IsSound :
      (e : Env X) (msg : ExecuteMsg X) (t : Token X) → IsSound t → Keeps (dispatch e msg t)
  unfolding dispatch
  dispatch-IsSound e (set_market addr) t s = Ensures-then IsSound (minter_addr t) _ λ minter _.
      Ensures-then IsSound (ensure (minter == e.sender) auth) _ λ _ _.
        Ensures-then IsSound (context (e.validate addr) not_found) _
          λ market _. set_market_addr-IsSound market t s
  dispatch-IsSound e (transfer_msg recipient amount) t s =
      Ensures-then IsSound (context (e.validate recipient) not_found) _
        λ r _. transfer-IsSound doc e.sender r amount t s
  dispatch-IsSound e (burn_msg amount) t s = burn-IsSound doc e.sender amount t s
  dispatch-IsSound e (send_msg contract amount msg) t s =
      Ensures-then IsSound (context (e.validate contract) not_found) _
        λ r _. send_with_msg-IsSound doc e.sender r amount msg t s
  dispatch-IsSound e (mint_msg recipient amount) t s =
      Ensures-then IsSound (context (e.validate recipient) not_found) _
        λ r _. mint-IsSound doc e.sender r amount t s
  dispatch-IsSound e (increase_allowance_msg spender amount expires) t s =
      Ensures-then IsSound (context (e.validate spender) not_found) _
        λ p _. increase_allowance-IsSound doc e.never e.sender p amount expires t s
  dispatch-IsSound e (decrease_allowance_msg spender amount expires) t s =
      Ensures-then IsSound (context (e.validate spender) not_found) _
        λ p _. decrease_allowance-IsSound doc e.sender p amount expires t s
  dispatch-IsSound e (transfer_from_msg owner recipient amount) t s =
      Ensures-then IsSound (context (e.validate owner) not_found) _ λ o _.
        Ensures-then IsSound (context (e.validate recipient) not_found) _
          λ r _. transfer_from-IsSound doc e.is_expired e.sender o r amount t s
  dispatch-IsSound e (burn_from_msg owner amount) t s =
      Ensures-then IsSound (context (e.validate owner) not_found) _
        λ o _. burn_from-IsSound doc e.is_expired e.sender o amount t s
  dispatch-IsSound e (send_from_msg owner contract amount msg) t s =
      Ensures-then IsSound (context (e.validate owner) not_found) _ λ o _.
        Ensures-then IsSound (context (e.validate contract) not_found) _
          λ r _. send_with_msg_from-IsSound doc e.is_expired e.sender o r amount msg t s
  dispatch-IsSound e (update_minter new_minter) t s =
      set_minter-IsSound doc e.validate e.sender new_minter t s

  -- In a token whose books are in order (the balances add up to the total supply, which is below
  -- 2^128 and within the minter's cap, and both copies of every allowance agree), they are in order
  -- after every message that succeeds.
  pub execute-IsSound :
      (e : Env X) (msg : ExecuteMsg X) (t : Token X) {t' : Token X}
      → IsSound t
      → execute e msg t ≡ ok t'
      → IsSound t'
  unfolding execute
  execute-IsSound e msg t s h =
      Ensures-ok IsSound (assert_trading_competition e msg t >> dispatch e msg t)
        (Ensures-then IsSound (assert_trading_competition e msg t) _
          λ _ _. dispatch-IsSound e msg t s)
        h

  -- In a token whose books are in order, a transfer of a positive amount that the owner holds
  -- succeeds, takes it from the owner, gives it to the recipient (an account may pay itself) and
  -- leaves the supply; zero and more than the owner holds are refused, each with its error.
  pub transfer_lem :
      (o r a : ℕ) (t : Token X)
      → IsSound t
      → transfer o r a t ≡ (
          if a == 0
          then err cw20_funds
          else if leb a (balance t o)
          then ok (moved a (add_output (transfer_event o r a none) t) o r)
          else err underflow)
  unfolding transfer
  transfer_lem o r a t s =
      let t1 = add_output (transfer_event o r a none) t in
      elim (Bool-cases (a == 0)) [
        | inl none_asked ↦ rw none_asked refl
        | inr some_asked ↦ rw some_asked (move_lem doc a t1 o r (add_output-IsSound _ t s))
      ]
