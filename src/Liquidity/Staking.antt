-- ===== src/Liquidity/Staking.antt =====
-- Staking of LP into xLP and back, in contracts/market/src/state/liquidity.rs.
use levana_perps.Cosmwasm.{Cosmwasm}
use levana_perps.Liquidity.Keeping.{seconds, perform_lp_book_keeping}
use levana_perps.Liquidity.Stats.{lp_to_collateral_non_zero}
use levana_perps.Liquidity.State.{Env, Pool, AddrStats, UnstakingXlp, unstake_xlp}
use levana_perps.Liquidity.Storage.{load_addr, save_addr, save_stats, add_action}
use levana_perps.Number.NonZero.{non_zero}
use levana_perps.Number.Unsigned.{checked_sub, checked_add}
use levana_perps.Prelude.{
  ◌==◌, if◌then◌else◌, leb, unwrap_or, ensure, ok, invalid_stake_lp, failed, ◌>>◌, Result,
  to_option, ◌>>=◌, context, err, ℕ, Bool, false, Option, none, some,
}

module _ ⦃c : Cosmwasm⦄ where
  unfoldable pub liquidity_stake_lp : Env → ℕ → Option ℕ → Pool → Result Pool
  unfolding perform_lp_book_keeping load_addr non_zero checked_sub checked_add save_addr save_stats
  liquidity_stake_lp e addr lp_amount p = do
    p1 ← perform_lp_book_keeping e addr p
    a ← load_addr addr p1
    old_lp ← context (non_zero a.lp) failed
    let amount = unwrap_or lp_amount old_lp
    new_lp ← context (to_option (checked_sub old_lp amount)) invalid_stake_lp
    new_xlp ← checked_add a.xlp amount
    let p2 = save_addr addr (record a { lp = new_lp; xlp = new_xlp }) p1
    total_lp ← checked_sub p2.stats.total_lp amount
    total_xlp ← checked_add p2.stats.total_xlp amount
    save_stats (record p2.stats { total_lp = total_lp; total_xlp = total_xlp }) p2

  -- `liquidity_stop_unstaking_xlp` with the entry that it returns.
  unfoldable pub restore : ℕ → AddrStats → UnstakingXlp → Pool → Result (AddrStats × Pool)
  unfolding checked_sub checked_add save_stats
  restore addr a u p = checked_sub u.xlp_amount u.collected >>= λ rest.
      if rest == 0
      then ok (record a { unstaking = none }, p)
      else (checked_sub p.stats.total_lp rest >>= λ total_lp.
          checked_add p.stats.total_xlp rest >>= λ total_xlp.
          save_stats (record p.stats { total_lp = total_lp; total_xlp = total_xlp }) p >>= λ p1.
          checked_add a.xlp rest >>= λ xlp. ok (record a { unstaking = none; xlp = xlp }, p1))

  unfoldable pub stop_unstaking :
      ℕ → AddrStats → Option UnstakingXlp → Bool → Pool → Result (AddrStats × Pool)
  unfolding restore
  stop_unstaking addr a none fail_on_no_unstaking p =
      if fail_on_no_unstaking then err failed else ok (a, p)
  stop_unstaking addr a (some u) fail_on_no_unstaking p = restore addr a u p

  unfoldable pub liquidity_stop_unstaking_xlp :
      Env → ℕ → Bool → Bool → Pool → Result (AddrStats × Pool)
  unfolding perform_lp_book_keeping load_addr stop_unstaking save_addr
  liquidity_stop_unstaking_xlp e addr fail_on_no_unstaking save_new_stats p = do
    p1 ← perform_lp_book_keeping e addr p
    a ← load_addr addr p1
    (a1, p2) ← stop_unstaking addr a a.unstaking fail_on_no_unstaking p1
    ok (a1, (if save_new_stats then save_addr addr a1 p2 else p2))

  -- The amount to unstake: all of it, or what is asked if that much is owned.
  unfoldable pub asked : ℕ → Option ℕ → Result ℕ
  asked owned none = ok owned
  asked owned (some amount) = ensure (leb amount owned) failed >> ok amount

  -- The end of `liquidity_unstake_xlp`, with the entry that nothing is unstaking of.
  unfoldable pub begin_unstaking : Env → ℕ → ℕ → ℕ → AddrStats → Pool → Result Pool
  unfolding checked_sub checked_add save_addr save_stats lp_to_collateral_non_zero add_action
  begin_unstaking e addr amount duration a p = do
    let u : UnstakingXlp = record {
      xlp_amount = amount;
      collected = 0;
      unstake_started = e.now;
      unstake_duration = duration;
      last_collected = e.now;
    }
    xlp ← checked_sub a.xlp amount
    let p1 = save_addr addr (record a { unstaking = some u; xlp = xlp }) p
    total_lp ← checked_add p1.stats.total_lp amount
    total_xlp ← checked_sub p1.stats.total_xlp amount
    let stats = record p1.stats { total_lp = total_lp; total_xlp = total_xlp }
    p2 ← save_stats stats p1
    collateral ← lp_to_collateral_non_zero stats amount
    add_action e addr unstake_xlp (some amount) collateral p2

  unfoldable pub liquidity_unstake_xlp : Env → ℕ → Option ℕ → Pool → Result Pool
  unfolding liquidity_stop_unstaking_xlp non_zero asked seconds begin_unstaking
  liquidity_unstake_xlp e addr xlp_amount p = do
    (a, p1) ← liquidity_stop_unstaking_xlp e addr false false p
    owned ← context (non_zero a.xlp) failed
    amount ← asked owned xlp_amount
    duration ← seconds e.unstake_period_seconds
    begin_unstaking e addr amount duration a p1
