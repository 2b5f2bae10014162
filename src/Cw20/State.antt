-- ===== src/Cw20/State.antt =====
-- The storage items of contracts/cw20/src/state/cw20.rs and trading_competition.rs, what a call
-- emits, and the read-only methods. An address and the bytes of a payload are only passed on and
-- compared. The expiration of an allowance belongs to the `cw_utils` crate: a type `X`.
use levana_perps.Prelude.{
  ℕ, Option, List, ◌++◌, [], ◌∷◌, ◌&&◌, ◌==◌, if◌then◌else◌, unwrap_or, Result, not_found, context,
}
use levana_perps.Prelude.Dict.{Dict, may_load}

pub record TokenInfo : Type 0 where
  pub name : List ℕ
  pub symbol : List ℕ
  pub decimals : ℕ
  pub total_supply : ℕ

pub record Allowance (X : Type 0) : Type 0 where
  pub allowance : ℕ
  pub expires : X

-- The events and the messages that a response carries.
pub data Output (X : Type 0) : Type 0 where
  transfer_event : (owner recipient amount : ℕ) (by : Option ℕ) → Output X
  burn_event : (owner amount : ℕ) (by : Option ℕ) → Output X
  send_event : (owner contract amount : ℕ) (by : Option ℕ) → Output X
  mint_event : (owner recipient amount : ℕ) → Output X
  allowance_increase_event : (owner spender amount : ℕ) (expires : Option X) → Output X
  allowance_decrease_event : (owner spender amount : ℕ) (expires : Option X) → Output X
  minter_change_event : (minter : ℕ) → Output X
  receive_message : (contract sender amount : ℕ) (msg : List ℕ) → Output X

-- A map with a pair of addresses for its key.
abbrev pub PairMap : Type 0 → Type 0
PairMap V = ℕ → ℕ → Option V

module _ {V : Type 0} where
  abbrev pub put : ℕ → ℕ → Option V → PairMap V → PairMap V
  put a b v m a' b' = if a' == a && b' == b then v else m a' b'

pub record Token (X : Type 0) : Type 0 where
  pub balances : Dict ℕ
  pub token_info : Option TokenInfo
  pub minter : Option ℕ
  pub minter_cap : Option ℕ
  pub allowances : PairMap (Allowance X)
  pub allowances_spender : PairMap (Allowance X)
  pub market_address : Option ℕ
  pub response : List (Output X)

module _ {X : Type 0} where
  abbrev pub add_output : Output X → Token X → Token X
  add_output o t = record t { response = t.response ++ (o ∷ []) }

  abbrev pub minter_addr : Token X → Result ℕ
  minter_addr t = context t.minter not_found

  abbrev pub balance : Token X → ℕ → ℕ
  balance t addr = unwrap_or (may_load addr t.balances) 0

  -- `AllowanceResponse::default`, with the default expiration.
  abbrev pub default_allowance : X → Allowance X
  default_allowance never = record { allowance = 0; expires = never }

  abbrev pub allowance_of : X → Token X → ℕ → ℕ → Allowance X
  allowance_of never t owner spender =
      unwrap_or (t.allowances owner spender) (default_allowance never)
