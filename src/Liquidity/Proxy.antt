-- ===== src/Liquidity/Proxy.antt =====
-- The LP and xLP tokens behind their CW20 proxies: the messages of
-- contracts/market/src/state/liquidity/cw20.rs, with `LiquidityTokenKind` and the messages of
-- packages/perpswap/src/contracts/liquidity_token. The allowances, the events and the changes of an
-- allowance are those of the CW20 token.
use levana_perps.Liquidity.Keeping.{perform_lp_book_keeping}
use levana_perps.Liquidity.Provider.{ensure_liquidity_cooldown}
use levana_perps.Liquidity.Storage.{load_addr_default, save_addr}
use levana_perps.Number.Signed.{
  is_negative, signed_add, neg, try_into_non_negative_value, Signed, new_positive,
}
use levana_perps.Prelude.{
  if◌then◌else◌, ◌==◌, context, ok, failed, auth, ◌>>◌, ◌>>=◌, not_found, cw20_funds, Result,
  ensure, ℕ, Bool, not, Option, none, some, List, [], ◌∷◌, ◌++◌,
}
use levana_perps.Cw20.Ledger.{deduct, increase, decrease}
use levana_perps.Liquidity.State.{Pool, AddrStats, Env}
use levana_perps.Cosmwasm.{Cosmwasm}
use levana_perps.Cw20.State.{
  Allowance, Output, PairMap, put, transfer_event, send_event, allowance_increase_event,
  allowance_decrease_event, receive_message,
}

pub data LiquidityTokenKind : Type 0 where
  lp_kind xlp_kind : LiquidityTokenKind

-- `LP_ALLOWANCES` and `LP_ALLOWANCES_SPENDER`, or those of the xLP token.
pub record Allowances (X : Type 0) : Type 0 where
  pub by_owner : PairMap (Allowance X)
  pub by_spender : PairMap (Allowance X)

-- The pool with the allowances of both tokens and the response.
pub record Tokens (X : Type 0) : Type 0 where
  pub pool : Pool
  pub of_lp : Allowances X
  pub of_xlp : Allowances X
  pub response : List (Output X)

pub data ProxyMsg (X : Type 0) : Type 0 where
  transfer_tokens : (recipient amount : ℕ) → ProxyMsg X
  send_tokens : (contract amount : ℕ) (msg : List ℕ) → ProxyMsg X
  allow_more : (spender amount : ℕ) (expires : Option X) → ProxyMsg X
  allow_less : (spender amount : ℕ) (expires : Option X) → ProxyMsg X
  transfer_tokens_from : (owner recipient amount : ℕ) → ProxyMsg X
  send_tokens_from : (owner contract amount : ℕ) (msg : List ℕ) → ProxyMsg X

-- What a call is given: the environment of the pool, the check of a raw address, the test of an
-- expiration against the block, and the default expiration.
pub record ProxyEnv (X : Type 0) : Type 0 where
  pub market : Env
  pub validate : ℕ → Option ℕ
  pub is_expired : X → Bool
  pub never : X

module _ {X : Type 0} where
  abbrev pub allowances_map : LiquidityTokenKind → Tokens X → Allowances X
  allowances_map lp_kind t = t.of_lp
  allowances_map xlp_kind t = t.of_xlp

  abbrev pub save_allowances : LiquidityTokenKind → Allowances X → Tokens X → Tokens X
  save_allowances lp_kind m t = record t { of_lp = m }
  save_allowances xlp_kind m t = record t { of_xlp = m }

  abbrev pub respond : Output X → Tokens X → Tokens X
  respond o t = record t { response = t.response ++ (o ∷ []) }

module _ ⦃c : Cosmwasm⦄ where
  -- The tokens of the proxies have 6 decimal places.
  unfoldable pub uint_128_into_lp_token : ℕ → Result ℕ
  uint_128_into_lp_token amount = context (c.dec_from_atomics amount 6) failed

  -- An outgoing transfer of LP tokens waits for the cooldown.
  unfoldable pub check_cooldown : Env → LiquidityTokenKind → Signed → AddrStats → Result (Unit {0})
  unfolding ensure_liquidity_cooldown
  check_cooldown e lp_kind delta a =
      if is_negative delta then ensure_liquidity_cooldown e a else ok tt
  check_cooldown e xlp_kind delta a = ok tt

  -- The balance of the entry, changed by `delta`.
  unfoldable pub change_balance : Signed → ℕ → Result ℕ
  unfolding signed_add
  change_balance delta m = do
    new_balance ← signed_add (new_positive m) delta
    context (try_into_non_negative_value new_balance) cw20_funds

  unfoldable pub change_entry_by : LiquidityTokenKind → Signed → AddrStats → Result AddrStats
  unfolding change_balance
  change_entry_by lp_kind delta a = change_balance delta a.lp >>= λ n. ok (record a { lp = n })
  change_entry_by xlp_kind delta a = change_balance delta a.xlp >>= λ n. ok (record a { xlp = n })

  unfoldable pub liquidity_token_balance_change_inner :
      Env → LiquidityTokenKind → ℕ → Signed → Pool → Result Pool
  unfolding perform_lp_book_keeping load_addr_default check_cooldown change_entry_by save_addr
  liquidity_token_balance_change_inner e kind owner delta p = do
    p1 ← perform_lp_book_keeping e owner p
    a ← load_addr_default owner p1
    check_cooldown e kind delta a
    b ← change_entry_by kind delta a
    ok (save_addr owner b p1)

  -- The last steps of all transfers: the balances of the owner and of the recipient.
  unfoldable pub move_tokens : Env → LiquidityTokenKind → ℕ → ℕ → ℕ → Pool → Result Pool
  unfolding uint_128_into_lp_token liquidity_token_balance_change_inner neg
  move_tokens e kind owner recipient amount p = do
    tokens ← uint_128_into_lp_token amount
    p1 ← liquidity_token_balance_change_inner e kind owner (neg (new_positive tokens)) p
    liquidity_token_balance_change_inner e kind recipient (new_positive tokens) p1

module _ ⦃c : Cosmwasm⦄ {X : Type 0} where
  unfoldable pub liquidity_token_deduct_allowance_inner :
      (X → Bool) → ℕ → ℕ → ℕ → LiquidityTokenKind → Tokens X → Result (Tokens X)
  unfolding deduct
  liquidity_token_deduct_allowance_inner is_expired owner spender amount kind t = do
    let m = allowances_map kind t
    a ← deduct is_expired amount (m.by_owner owner spender)
    b ← deduct is_expired amount (m.by_spender spender owner)
    ok (
        save_allowances kind
          (record {
            by_owner = put owner spender (some a) m.by_owner;
            by_spender = put spender owner (some b) m.by_spender;
          })
          t)

  unfoldable pub liquidity_token_transfer :
      Env → ℕ → ℕ → ℕ → LiquidityTokenKind → Tokens X → Result (Tokens X)
  unfolding move_tokens
  liquidity_token_transfer e owner recipient amount kind t = do
    let t1 = respond (transfer_event owner recipient amount none) t
    pool ← move_tokens e kind owner recipient amount t1.pool
    ok (record t1 { pool = pool })

  unfoldable pub liquidity_token_transfer_from :
      ProxyEnv X → ℕ → ℕ → ℕ → ℕ → LiquidityTokenKind → Tokens X → Result (Tokens X)
  unfolding liquidity_token_deduct_allowance_inner move_tokens
  liquidity_token_transfer_from e sender owner recipient amount kind t = do
    let t1 = respond (transfer_event owner recipient amount (some sender)) t
    t2 ← liquidity_token_deduct_allowance_inner e.is_expired owner sender amount kind t1
    pool ← move_tokens e.market kind owner recipient amount t2.pool
    ok (record t2 { pool = pool })

  unfoldable pub liquidity_token_send_with_msg :
      Env → ℕ → ℕ → ℕ → List ℕ → LiquidityTokenKind → Tokens X → Result (Tokens X)
  unfolding move_tokens
  liquidity_token_send_with_msg e owner contract amount msg kind t = do
    let t1 = respond (send_event owner contract amount none) t
    let t2 = respond (receive_message contract owner amount msg) t1
    pool ← move_tokens e kind owner contract amount t2.pool
    ok (record t2 { pool = pool })

  unfoldable pub liquidity_token_send_with_msg_from :
      ProxyEnv X → ℕ → ℕ → ℕ → ℕ → List ℕ → LiquidityTokenKind → Tokens X → Result (Tokens X)
  unfolding liquidity_token_deduct_allowance_inner move_tokens
  liquidity_token_send_with_msg_from e sender owner contract amount msg kind t = do
    let t1 = respond (send_event owner contract amount (some sender)) t
    t2 ← liquidity_token_deduct_allowance_inner e.is_expired owner sender amount kind t1
    let t3 = respond (receive_message contract sender amount msg) t2
    pool ← move_tokens e.market kind owner contract amount t3.pool
    ok (record t3 { pool = pool })

  unfoldable pub liquidity_token_increase_allowance :
      X → ℕ → ℕ → ℕ → Option X → LiquidityTokenKind → Tokens X → Result (Tokens X)
  unfolding increase
  liquidity_token_increase_allowance never owner spender amount expires kind t = do
    let t1 = respond (allowance_increase_event owner spender amount expires) t
    ensure (not (spender == owner)) auth
    let m = allowances_map kind t1
    a ← increase never amount expires (m.by_owner owner spender)
    b ← increase never amount expires (m.by_spender spender owner)
    ok (
        save_allowances kind
          (record {
            by_owner = put owner spender (some a) m.by_owner;
            by_spender = put spender owner (some b) m.by_spender;
          })
          t1)

  unfoldable pub liquidity_token_decrease_allowance :
      ℕ → ℕ → ℕ → Option X → LiquidityTokenKind → Tokens X → Result (Tokens X)
  unfolding decrease
  liquidity_token_decrease_allowance owner spender amount expires kind t = do
    let t1 = respond (allowance_decrease_event owner spender amount expires) t
    ensure (not (spender == owner)) auth
    let m = allowances_map kind t1
    a ← context (m.by_owner owner spender) not_found
    left ← decrease amount expires a
    ok (
        save_allowances kind
          (record {
            by_owner = put owner spender left m.by_owner;
            by_spender = put spender owner left m.by_spender;
          })
          t1)

  unfoldable pub liquidity_token_handle_exec :
      ProxyEnv X → ℕ → LiquidityTokenKind → ProxyMsg X → Tokens X → Result (Tokens X)
  unfolding liquidity_token_transfer liquidity_token_transfer_from liquidity_token_send_with_msg
      liquidity_token_send_with_msg_from liquidity_token_increase_allowance
      liquidity_token_decrease_allowance
  liquidity_token_handle_exec e msg_sender kind (transfer_tokens recipient amount) t = do
    r ← context (e.validate recipient) not_found
    liquidity_token_transfer e.market msg_sender r amount kind t
  liquidity_token_handle_exec e msg_sender kind (send_tokens contract amount msg) t = do
    r ← context (e.validate contract) not_found
    liquidity_token_send_with_msg e.market msg_sender r amount msg kind t
  liquidity_token_handle_exec e msg_sender kind (allow_more spender amount expires) t = do
    s ← context (e.validate spender) not_found
    liquidity_token_increase_allowance e.never msg_sender s amount expires kind t
  liquidity_token_handle_exec e msg_sender kind (allow_less spender amount expires) t = do
    s ← context (e.validate spender) not_found
    liquidity_token_decrease_allowance msg_sender s amount expires kind t
  liquidity_token_handle_exec e msg_sender kind (transfer_tokens_from owner recipient amount) t = do
    o ← context (e.validate owner) not_found
    r ← context (e.validate recipient) not_found
    liquidity_token_transfer_from e msg_sender o r amount kind t
  liquidity_token_handle_exec e msg_sender kind (send_tokens_from owner contract amount msg) t = do
    o ← context (e.validate owner) not_found
    r ← context (e.validate contract) not_found
    liquidity_token_send_with_msg_from e msg_sender o r amount msg kind t
