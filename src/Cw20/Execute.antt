-- ===== src/Cw20/Execute.antt =====
-- The dispatch of contracts/cw20/src/contract.rs, with the guard and the setter of
-- contracts/cw20/src/state/trading_competition.rs.
use levana_perps.Prelude.{
  ℕ, Bool, true, false, Option, none, some, List, ◌==◌, Result, ok, err, ◌>>=◌, ◌>>◌, ensure,
  context, auth, failed, not_found,
}
use levana_perps.Cosmwasm.{Cosmwasm}
use levana_perps.Cw20.State.{Token, minter_addr}
use levana_perps.Cw20.Ledger.{
  transfer, transfer_from, burn, burn_from, send_with_msg, send_with_msg_from, mint,
  increase_allowance, decrease_allowance, set_minter,
}

-- `ExecuteMsg`, less the two messages on marketing data, which touch no account.
pub data ExecuteMsg (X : Type 0) : Type 0 where
  set_market : (addr : ℕ) → ExecuteMsg X
  transfer_msg : (recipient amount : ℕ) → ExecuteMsg X
  burn_msg : (amount : ℕ) → ExecuteMsg X
  send_msg : (contract amount : ℕ) (msg : List ℕ) → ExecuteMsg X
  mint_msg : (recipient amount : ℕ) → ExecuteMsg X
  increase_allowance_msg : (spender amount : ℕ) (expires : Option X) → ExecuteMsg X
  decrease_allowance_msg : (spender amount : ℕ) (expires : Option X) → ExecuteMsg X
  transfer_from_msg : (owner recipient amount : ℕ) → ExecuteMsg X
  burn_from_msg : (owner amount : ℕ) → ExecuteMsg X
  send_from_msg : (owner contract amount : ℕ) (msg : List ℕ) → ExecuteMsg X
  update_minter : (new_minter : ℕ) → ExecuteMsg X

-- What a call is given by the chain and by the crates: the sender, the check of a raw address, the
-- test of an expiration against the block, and the default expiration.
pub record Env (X : Type 0) : Type 0 where
  pub sender : ℕ
  pub validate : ℕ → Option ℕ
  pub is_expired : X → Bool
  pub never : X

module _ {X : Type 0} where
  -- The account that the trading competition restricts, if the message names one.
  unfoldable pub restricted : ExecuteMsg X → Option ℕ
  restricted (transfer_msg recipient amount) = some recipient
  restricted (send_msg contract amount msg) = some contract
  restricted (increase_allowance_msg spender amount expires) = some spender
  restricted (decrease_allowance_msg spender amount expires) = some spender
  restricted (transfer_from_msg owner recipient amount) = some recipient
  restricted (send_from_msg owner contract amount msg) = some contract
  restricted (set_market addr) = none
  restricted (burn_msg amount) = none
  restricted (mint_msg recipient amount) = none
  restricted (burn_from_msg owner amount) = none
  restricted (update_minter new_minter) = none

  check_recipient : Env X → ℕ → Option ℕ → Result (Unit {0})
  check_recipient e market none = ok tt
  check_recipient e market (some raw) = do
    recipient ← context (e.validate raw) not_found
    ensure (market == recipient) auth

  check_market : Env X → ExecuteMsg X → Option ℕ → Result (Unit {0})
  unfolding restricted check_recipient
  check_market e msg none = ok tt
  check_market e msg (some market) = elim (e.sender == market) [
    | true ↦ ok tt
    | false ↦ check_recipient e market (restricted msg)
  ]

  unfoldable pub assert_trading_competition : Env X → ExecuteMsg X → Token X → Result (Unit {0})
  unfolding check_market
  assert_trading_competition e msg t = check_market e msg t.market_address

  unfoldable pub set_market_addr : ℕ → Token X → Result (Token X)
  set_market_addr market t = elim t.market_address [
    | none ↦ ok (record t { market_address = some market })
    | some _ ↦ err failed
  ]

module _ ⦃c : Cosmwasm⦄ {X : Type 0} where
  unfoldable pub dispatch : Env X → ExecuteMsg X → Token X → Result (Token X)
  dispatch e (set_market addr) t = do
    minter ← minter_addr t
    ensure (minter == e.sender) auth
    market ← context (e.validate addr) not_found
    set_market_addr market t
  dispatch e (transfer_msg recipient amount) t = do
    r ← context (e.validate recipient) not_found
    transfer e.sender r amount t
  dispatch e (burn_msg amount) t = burn e.sender amount t
  dispatch e (send_msg contract amount msg) t = do
    r ← context (e.validate contract) not_found
    send_with_msg e.sender r amount msg t
  dispatch e (mint_msg recipient amount) t = do
    r ← context (e.validate recipient) not_found
    mint e.sender r amount t
  dispatch e (increase_allowance_msg spender amount expires) t = do
    s ← context (e.validate spender) not_found
    increase_allowance e.never e.sender s amount expires t
  dispatch e (decrease_allowance_msg spender amount expires) t = do
    s ← context (e.validate spender) not_found
    decrease_allowance e.sender s amount expires t
  dispatch e (transfer_from_msg owner recipient amount) t = do
    o ← context (e.validate owner) not_found
    r ← context (e.validate recipient) not_found
    transfer_from e.is_expired e.sender o r amount t
  dispatch e (burn_from_msg owner amount) t = do
    o ← context (e.validate owner) not_found
    burn_from e.is_expired e.sender o amount t
  dispatch e (send_from_msg owner contract amount msg) t = do
    o ← context (e.validate owner) not_found
    r ← context (e.validate contract) not_found
    send_with_msg_from e.is_expired e.sender o r amount msg t
  dispatch e (update_minter new_minter) t = set_minter e.validate e.sender new_minter t

  unfoldable pub execute : Env X → ExecuteMsg X → Token X → Result (Token X)
  unfolding assert_trading_competition dispatch
  execute e msg t = do assert_trading_competition e msg t; dispatch e msg t
