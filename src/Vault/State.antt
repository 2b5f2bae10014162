-- ===== src/Vault/State.antt =====
-- The storage of contracts/vault/src/state.rs with the types of contracts/vault/src/types.rs and
-- packages/perpswap/src/contracts/vault.rs. An address and a denomination are numbers, which the code
-- only compares. The items that `instantiate` stores are always there.
use levana_perps.Prelude.{ltb, if◌then◌else◌, unwrap_or, ◌==◌, ℕ, Bool, ◌&&◌, Option, List, [], ◌∷◌}
use levana_perps.Prelude.Dict.{Dict, may_load}
use levana_perps.Cw20.Supply.{held}

-- `UsdcAsset`.
pub data UsdcAsset : Type 0 where
  cw20 : (addr : ℕ) → UsdcAsset
  native : (denom : ℕ) → UsdcAsset

-- The text of a `UsdcAsset`.
abbrev pub to_string : UsdcAsset → ℕ
to_string (cw20 addr) = addr
to_string (native denom) = denom

-- `Config`; the allocations of the hash map are in some order.
pub record Config : Type 0 where
  pub usdc_denom : UsdcAsset
  pub governance : ℕ
  pub markets_allocation_bps : Dict ℕ
  pub paused : Bool

pub record WithdrawalRequest : Type 0 where
  pub user : ℕ
  pub amount : ℕ

-- The storage. The queue is in the order of its keys, in which `range` reads it.
pub record Vault : Type 0 where
  pub config : Config
  pub total_pending_withdrawals : ℕ
  pub queue_id : Option ℕ
  pub user_withdrawals : ℕ → ℕ → Bool
  pub withdrawal_queue : Dict WithdrawalRequest
  pub total_lp_supply : ℕ
  pub lp_balances : Dict ℕ
  pub market_allocations : Dict ℕ

-- The messages that a call sends: a deposit of the market's liquidity with native funds or through
-- the token, and payments.
pub data Message : Type 0 where
  deposit_liquidity : (asset : UsdcAsset) (market amount : ℕ) → Message
  withdraw_liquidity : (market lp_amount : ℕ) → Message
  market_claim_yield : (market : ℕ) → Message
  bank_send : (to_address denom amount : ℕ) → Message
  cw20_transfer : (token recipient amount : ℕ) → Message

pub record Coin : Type 0 where
  pub denom : ℕ
  pub amount : ℕ

-- `MessageInfo`.
pub record Info : Type 0 where
  pub sender : ℕ
  pub funds : List Coin

-- What the chain answers in a call: the vault's balance of a native coin and of a token, the check of
-- a raw address, and whether the text of a hook parses as `Cw20HookMsg`.
pub record Chain : Type 0 where
  pub query_balance : ℕ → Option ℕ
  pub query_cw20 : ℕ → Option ℕ
  pub addr_validate : ℕ → Option ℕ
  pub is_hook : List ℕ → Bool

-- `USER_WITHDRAWALS.save` and `remove`.
abbrev pub mark : ℕ → ℕ → Bool → (ℕ → ℕ → Bool) → ℕ → ℕ → Bool
mark user id held marks u k = if u == user && k == id then held else marks u k

-- `WITHDRAWAL_QUEUE.save`: a write in the order of the keys.
unfoldable pub save_request :
    ℕ → WithdrawalRequest → Dict WithdrawalRequest → Dict WithdrawalRequest
save_request id r [] = (id, r) ∷ []
save_request id r ((k, old) ∷ q) =
    if ltb id k
    then (id, r) ∷ (k, old) ∷ q
    else if id == k
    then (id, r) ∷ q
    else (k, old) ∷ save_request id r q

-- The default of a missing balance.
abbrev pub lp_balance : Vault → ℕ → ℕ
lp_balance v user = unwrap_or (may_load user v.lp_balances) 0
