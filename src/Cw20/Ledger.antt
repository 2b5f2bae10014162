-- ===== src/Cw20/Ledger.antt =====
-- The methods of contracts/cw20/src/state/cw20.rs that move tokens and allowances. A call returns the
-- new state; on an error the chain drops whatever the call wrote.
use levana_perps.Prelude.{
  ℕ, Bool, true, not, Option, none, some, List, ◌==◌, ltb, if◌then◌else◌, unwrap_or, Result, ok,
  err, ◌>>=◌, ◌>>◌, ensure, context, panic, underflow, not_found, auth, cw20_funds, expired,
}
use levana_perps.Prelude.Dict.{save}
use levana_perps.Cosmwasm.{Cosmwasm}
use levana_perps.Cw20.State.{
  Token, Allowance, transfer_event, burn_event, send_event, mint_event, allowance_increase_event,
  allowance_decrease_event, minter_change_event, receive_message, put, add_output, minter_addr,
  balance, default_allowance,
}

-- Not `config.total_supply > limit`, where a cap is set.
abbrev pub within_cap : ℕ → Option ℕ → Bool
within_cap supply none = true
within_cap supply (some limit) = not (ltb limit supply)

module _ ⦃c : Cosmwasm⦄ {X : Type 0} where
  -- `BALANCES.update` with the closure that subtracts.
  unfoldable pub debit : ℕ → ℕ → Token X → Result (Token X)
  debit owner amount t = do
    left ← context (c.uint128_checked_sub (balance t owner) amount) underflow
    ok (record t { balances = save owner left t.balances })

  -- `BALANCES.update` with the closure that adds by `+`.
  unfoldable pub credit : ℕ → ℕ → Token X → Result (Token X)
  credit recipient amount t = do
    more ← context (c.uint128_add (balance t recipient) amount) panic
    ok (record t { balances = save recipient more t.balances })

  unfoldable pub reduce_supply : ℕ → Token X → Result (Token X)
  reduce_supply amount t = do
    info ← context t.token_info not_found
    left ← context (c.uint128_checked_sub info.total_supply amount) underflow
    ok (record t { token_info = some (record info { total_supply = left }) })

  -- The closure of `deduct_allowance`; `is_expired` is the test against the current block.
  unfoldable pub deduct : (X → Bool) → ℕ → Option (Allowance X) → Result (Allowance X)
  deduct is_expired amount none = err auth
  deduct is_expired amount (some a) = do
    ensure (not (is_expired a.expires)) expired
    left ← context (c.uint128_checked_sub a.allowance amount) underflow
    ok (record a { allowance = left })

  unfoldable pub deduct_allowance : (X → Bool) → ℕ → ℕ → ℕ → Token X → Result (Token X)
  unfolding deduct
  deduct_allowance is_expired owner spender amount t = do
    a ← deduct is_expired amount (t.allowances owner spender)
    b ← deduct is_expired amount (t.allowances_spender spender owner)
    ok (record t {
      allowances = put owner spender (some a) t.allowances;
      allowances_spender = put spender owner (some b) t.allowances_spender;
    })

  unfoldable pub transfer : ℕ → ℕ → ℕ → Token X → Result (Token X)
  unfolding debit credit
  transfer owner recipient amount t = do
    let t1 = add_output (transfer_event owner recipient amount none) t
    ensure (not (amount == 0)) cw20_funds
    t2 ← debit owner amount t1
    credit recipient amount t2

  unfoldable pub transfer_from : (X → Bool) → ℕ → ℕ → ℕ → ℕ → Token X → Result (Token X)
  unfolding debit credit deduct_allowance
  transfer_from is_expired sender owner recipient amount t = do
    let t1 = add_output (transfer_event owner recipient amount (some sender)) t
    t2 ← deduct_allowance is_expired owner sender amount t1
    t3 ← debit owner amount t2
    credit recipient amount t3

  unfoldable pub burn : ℕ → ℕ → Token X → Result (Token X)
  unfolding debit reduce_supply
  burn owner amount t = do
    let t1 = add_output (burn_event owner amount none) t
    ensure (not (amount == 0)) cw20_funds
    t2 ← debit owner amount t1
    reduce_supply amount t2

  unfoldable pub burn_from : (X → Bool) → ℕ → ℕ → ℕ → Token X → Result (Token X)
  unfolding debit reduce_supply deduct_allowance
  burn_from is_expired sender owner amount t = do
    let t1 = add_output (burn_event owner amount (some sender)) t
    t2 ← deduct_allowance is_expired owner sender amount t1
    t3 ← debit owner amount t2
    reduce_supply amount t3

  unfoldable pub send_with_msg : ℕ → ℕ → ℕ → List ℕ → Token X → Result (Token X)
  unfolding debit credit
  send_with_msg owner contract amount msg t = do
    let t1 = add_output (send_event owner contract amount none) t
    ensure (not (amount == 0)) cw20_funds
    t2 ← debit owner amount t1
    t3 ← credit contract amount t2
    ok (add_output (receive_message contract owner amount msg) t3)

  unfoldable pub send_with_msg_from :
      (X → Bool) → ℕ → ℕ → ℕ → ℕ → List ℕ → Token X → Result (Token X)
  unfolding debit credit deduct_allowance
  send_with_msg_from is_expired sender owner contract amount msg t = do
    let t1 = add_output (send_event owner contract amount (some sender)) t
    t2 ← deduct_allowance is_expired owner sender amount t1
    t3 ← debit owner amount t2
    t4 ← credit contract amount t3
    ok (add_output (receive_message contract sender amount msg) t4)

  unfoldable pub mint : ℕ → ℕ → ℕ → Token X → Result (Token X)
  unfolding credit
  mint sender recipient amount t = do
    let t1 = add_output (mint_event sender recipient amount) t
    ensure (not (amount == 0)) cw20_funds
    info ← context t1.token_info auth
    minter ← minter_addr t1
    ensure (minter == sender) auth
    supply ← context (c.uint128_add info.total_supply amount) panic
    ensure (within_cap supply t1.minter_cap) cw20_funds
    let t2 = record t1 { token_info = some (record info { total_supply = supply }) }
    credit recipient amount t2

  -- The closure of `increase_allowance`; `never` is the default expiration.
  unfoldable pub increase : X → ℕ → Option X → Option (Allowance X) → Result (Allowance X)
  increase never amount expires allow = do
    let val = unwrap_or allow (default_allowance never)
    more ← context (c.uint128_add val.allowance amount) panic
    ok (record { allowance = more; expires = unwrap_or expires val.expires })

  unfoldable pub increase_allowance : X → ℕ → ℕ → ℕ → Option X → Token X → Result (Token X)
  unfolding increase
  increase_allowance never owner spender amount expires t = do
    let t1 = add_output (allowance_increase_event owner spender amount expires) t
    ensure (not (spender == owner)) auth
    a ← increase never amount expires (t1.allowances owner spender)
    b ← increase never amount expires (t1.allowances_spender spender owner)
    ok (record t1 {
      allowances = put owner spender (some a) t1.allowances;
      allowances_spender = put spender owner (some b) t1.allowances_spender;
    })

  -- What `decrease_allowance` leaves of an allowance: it is removed where nothing is left.
  unfoldable pub decrease : ℕ → Option X → Allowance X → Result (Option (Allowance X))
  decrease amount expires a =
      if ltb amount a.allowance
      then (context (c.uint128_checked_sub a.allowance amount) underflow >>= λ left.
          ok (some (record { allowance = left; expires = unwrap_or expires a.expires })))
      else ok none

  unfoldable pub decrease_allowance : ℕ → ℕ → ℕ → Option X → Token X → Result (Token X)
  unfolding decrease
  decrease_allowance owner spender amount expires t = do
    let t1 = add_output (allowance_decrease_event owner spender amount expires) t
    ensure (not (spender == owner)) auth
    a ← context (t1.allowances owner spender) not_found
    left ← decrease amount expires a
    ok (record t1 {
      allowances = put owner spender left t1.allowances;
      allowances_spender = put spender owner left t1.allowances_spender;
    })

  -- `validate` is the chain's check of a raw address.
  unfoldable pub set_minter : (ℕ → Option ℕ) → ℕ → ℕ → Token X → Result (Token X)
  set_minter validate sender new_minter t = do
    old ← minter_addr t
    ensure (old == sender) auth
    addr ← context (validate new_minter) not_found
    ok (add_output (minter_change_event addr) (record t { minter = some addr }))
