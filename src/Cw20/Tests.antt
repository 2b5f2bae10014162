-- ===== src/Cw20/Tests.antt =====
-- Runs of the token at concrete values, and the theorems applied there.
use levana_perps.Cw20.Guarded.{Guarded}
use levana_perps.Cw20.Competition.{execute-Guarded}
use levana_perps.Cw20.Spending.{transfer_from_lem, deducted}
use levana_perps.Cosmwasm.{documented-IsDocumented, documented}
use levana_perps.Cw20.Execute.{Env, ExecuteMsg, execute, send_msg}
use levana_perps.Prelude.{
  ◌==◌, ◌&&◌, Option, if◌then◌else◌, leb, underflow, err, ok, ℕ, ◌≡◌, refl, none, some, [], ◌∷◌,
  arith,
}
use levana_perps.Cw20.Supply.{moved, IsSound}
use levana_perps.Cw20.Properties.{transfer_lem, execute-IsSound}
use levana_perps.Cw20.State.{
  Allowance, transfer_event, add_output, receive_message, send_event, Token,
}
use levana_perps.Cw20.Ledger.{transfer_from, send_with_msg, transfer}

-- A token of 100, of which account 1 holds 70 and account 2 holds 30; the market is account 9.
abbrev t0 : Token ℕ
t0 = record {
  balances = (1, 70) ∷ (2, 30) ∷ [];
  token_info = some (record { name = []; symbol = []; decimals = 6; total_supply = 100 });
  minter = some 1;
  minter_cap = some 1000;
  allowances = λ o s. none;
  allowances_spender = λ o s. none;
  market_address = some 9;
  response = [];
}

t0-IsSound : IsSound t0
t0-IsSound = record {
  distinct = (refl, (refl, tt));
  total = refl;
  fits = omega arith;
  capped = omega arith;
  mirrored = λ o s. refl;
}

-- The time is a block height, and addresses are checked to be below 100.
abbrev env_of : ℕ → Env ℕ
env_of sender = record {
  sender = sender;
  validate = λ a. if leb a 100 then some a else none;
  is_expired = λ h. leb h 50;
  never = 1000;
}

abbrev to_market : ExecuteMsg ℕ
to_market = send_msg 9 20 []

abbrev t1 : Token ℕ
t1 = record t0 {
  balances = (1, 50) ∷ (2, 30) ∷ (9, 20) ∷ [];
  response = send_event 1 9 20 none ∷ receive_message 9 1 20 [] ∷ [];
}

sent_run : execute ⦃c = documented⦄ (env_of 1) to_market t0 ≡ ok t1
unfolding execute send_with_msg
sent_run = refl

execute-IsSound_example : IsSound t1
execute-IsSound_example =
    execute-IsSound ⦃c = documented⦄ documented-IsDocumented (env_of 1) to_market t0 t0-IsSound
      sent_run

execute-Guarded_example : Guarded 9 0 t0 t1
execute-Guarded_example =
    execute-Guarded ⦃c = documented⦄ documented-IsDocumented 9 (env_of 1) to_market t0 refl
      (omega arith) sent_run

transfer_lem_example : transfer ⦃c = documented⦄ 1 2 71 t0 ≡ err underflow
transfer_lem_example = transfer_lem ⦃c = documented⦄ documented-IsDocumented 1 2 71 t0 t0-IsSound

-- Account 3 may spend 25 of account 1.
abbrev allowed_three : ℕ → ℕ → Allowance ℕ → Option (Allowance ℕ)
allowed_three a b x = if a == 1 && b == 3 then some x else none

abbrev t2 : Token ℕ
t2 = record t0 {
  allowances = λ o s. allowed_three o s (record { allowance = 25; expires = 100 });
  allowances_spender = λ s o. allowed_three o s (record { allowance = 25; expires = 100 });
}

t2-IsSound : IsSound t2
t2-IsSound = record {
  distinct = (refl, (refl, tt));
  total = refl;
  fits = omega arith;
  capped = omega arith;
  mirrored = λ o s. refl;
}

transfer_from_lem_example :
    transfer_from ⦃c = documented⦄ (λ h. leb h 50) 3 1 2 20 t2
    ≡ ok (
        moved 20
          (deducted 1 3 20
            (record { allowance = 25; expires = 100 })
            (add_output (transfer_event 1 2 20 (some 3)) t2))
          1
          2)
transfer_from_lem_example =
    transfer_from_lem ⦃c = documented⦄ documented-IsDocumented (λ h. leb h 50) 3 1 2 20 t2
      t2-IsSound
