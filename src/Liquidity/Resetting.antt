-- ===== src/Liquidity/Resetting.antt =====
-- The reset of the balances: `crank_reset_lp_balances` of
-- contracts/market/src/state/liquidity/stats.rs. An address is numbered in the order of the keys.
use levana_perps.Cosmwasm.{Cosmwasm}
use levana_perps.Liquidity.Keeping.{update_accrued_yield}
use levana_perps.Liquidity.State.{Pool, AddrStats, ResetLpStatus, begin, last_saw}
use levana_perps.Liquidity.Run.{should_reset_lp_balances}
use levana_perps.Liquidity.Storage.{latest_yield, save_addr, load_addr}
use levana_perps.Prelude.{
  ltb, if◌then◌else◌, ◌>>=◌, not_found, context, ok, Result, ℕ, zero, suc, Bool, true, Option, none,
  some, [], ◌∷◌,
}
use levana_perps.Prelude.Dict.{Dict}

-- `ResetLpStatus::as_bound`: the key after which the range starts.
abbrev pub as_bound : ResetLpStatus → Option ℕ
as_bound begin = none
as_bound (last_saw addr) = some addr

abbrev pub is_after : Option ℕ → ℕ → Bool
is_after none key = true
is_after (some bound) key = ltb bound key

abbrev pub least : ℕ → Option ℕ → ℕ
least key none = key
least key (some other) = if ltb other key then other else key

-- The first key of the range in ascending order.
unfoldable pub next_key : Option ℕ → Dict AddrStats → Option ℕ
next_key bound [] = none
next_key bound ((key, a) ∷ d) =
    let rest = next_key bound d in if is_after bound key then some (least key rest) else rest

module _ ⦃c : Cosmwasm⦄ where
  unfoldable pub reset_entry : ℕ → Pool → Result Pool
  unfolding update_accrued_yield load_addr latest_yield save_addr
  reset_entry addr p = do
    p1 ← update_accrued_yield addr p
    a ← load_addr addr p1
    entry ← latest_yield p1
    let cleared = record a {
      lp = 0;
      xlp = 0;
      last_accrue_key = entry.0;
      unstaking = none;
      cooldown_ends = none;
    }
    ok (record (save_addr addr cleared p1) { reset = some (last_saw addr) })

  -- The reset of the next entry, or its end where there is none.
  unfoldable pub reset_next : Option ℕ → Pool → Result Pool
  unfolding reset_entry
  reset_next none p = ok (record p { reset = none })
  reset_next (some addr) p = reset_entry addr p

  unfoldable pub crank_reset_lp_balances : Pool → Result Pool
  unfolding next_key reset_next
  crank_reset_lp_balances p = do
    status ← context p.reset not_found
    reset_next (next_key (as_bound status) p.by_addr) p

  -- The crank resets balances before all other work, as long as there is a reset: at most `n` times.
  unfoldable pub crank_resets : ℕ → Pool → Result Pool
  unfolding should_reset_lp_balances crank_reset_lp_balances
  crank_resets zero p = ok p
  crank_resets (suc n) p =
      if should_reset_lp_balances p
      then (crank_reset_lp_balances p >>= λ q. crank_resets n q)
      else ok p
