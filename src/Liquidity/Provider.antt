-- ===== src/Liquidity/Provider.antt =====
-- Deposits, withdrawals and yield of liquidity providers, in contracts/market/src/state/liquidity.rs.
use levana_perps.Cosmwasm.{Cosmwasm}
use levana_perps.Liquidity.Keeping.{plus_seconds, perform_lp_book_keeping}
use levana_perps.Liquidity.Stats.{
  total_tokens, collateral_to_lp, lp_to_collateral_non_zero, total_collateral,
}
use levana_perps.Liquidity.State.{
  LiquidityStats, no_liquidity, unlimited, Env, withdraw, AddrStats, reinvest_yield_xlp, usd, Pool,
  MaxLiquidity, reinvest_yield_lp,
}
use levana_perps.Liquidity.Storage.{
  add_transfer, notional_to_collateral, load_addr, add_deposit_history, save_stats,
  collateral_to_usd_non_zero, add_action, load_addr_default, pool_size_events, net_notional,
  add_claim_history, save_addr, collateral_to_usd,
}
use levana_perps.Liquidity.Staking.{liquidity_stake_lp}
use levana_perps.Number.Signed.{Signed}
use levana_perps.Number.NonZero.{non_zero}
use levana_perps.Number.Unsigned.{approx_eq, checked_add, checked_sub, div_non_zero}
use levana_perps.Prelude.{
  leb, if◌then◌else◌, ◌==◌, to_option, ◌>>◌, no_yield_to_claim, ensure, insufficient_liquidity,
  failed, ◌>>=◌, Result, withdraw_too_much, context, Error, insufficient_for_reinvest, ok, ℕ, Bool,
  true, false, not, Option, none, some,
}
use levana_perps.Prelude.Dict.{sum}
use levana_perps.Cw20.Supply.{held}

module _ ⦃c : Cosmwasm⦄ where
  check_max : Env → MaxLiquidity → ℕ → LiquidityStats → Result (Unit {0})
  unfolding collateral_to_usd total_collateral checked_add
  check_max e unlimited amount s = ok tt
  check_max e (usd limit) amount s = do
    deposit ← collateral_to_usd e amount
    collateral ← total_collateral s
    current ← collateral_to_usd e collateral
    new_total ← checked_add current deposit
    ensure (leb new_total limit) Error.max_liquidity

  unfoldable pub ensure_max_liquidity : Env → ℕ → LiquidityStats → Result (Unit {0})
  unfolding check_max
  ensure_max_liquidity e amount s = check_max e e.max_liquidity amount s

  unfoldable pub ensure_liquidity_cooldown : Env → AddrStats → Result (Unit {0})
  ensure_liquidity_cooldown e a = elim a.cooldown_ends [
    | none ↦ ok tt
    | some ends ↦ ensure (leb ends e.now) Error.liquidity_cooldown
  ]

  unfoldable pub cooldown : Env → Bool → AddrStats → Result AddrStats
  unfolding plus_seconds
  cooldown e true a = do
    ends ← plus_seconds e.now e.liquidity_cooldown_seconds
    ok (record a { cooldown_ends = some ends })
  cooldown e false a = ok a

  -- Returns the number of LP shares minted.
  unfoldable pub liquidity_deposit_inner : Env → ℕ → ℕ → Bool → Pool → Result (ℕ × Pool)
  unfolding ensure_max_liquidity perform_lp_book_keeping collateral_to_lp checked_add save_stats
      pool_size_events load_addr_default cooldown save_addr collateral_to_usd_non_zero
  liquidity_deposit_inner e addr amount start_cooldown p = do
    let stats = p.stats
    ensure_max_liquidity e amount stats
    p1 ← perform_lp_book_keeping e addr p
    new_shares ← collateral_to_lp stats amount
    total_lp ← checked_add stats.total_lp new_shares
    unlocked ← checked_add stats.unlocked amount
    let new_stats = record stats { total_lp = total_lp; unlocked = unlocked }
    p2 ← save_stats new_stats p1
    pool_size_events e new_stats
    a ← load_addr_default addr p2
    lp ← checked_add a.lp new_shares
    a1 ← cooldown e start_cooldown (record a { lp = lp })
    let p3 = save_addr addr a1 p2
    amount_usd ← collateral_to_usd_non_zero e amount
    ok (new_shares, p3)

  unfoldable pub stake_if : Bool → Env → ℕ → ℕ → Pool → Result Pool
  unfolding liquidity_stake_lp
  stake_if true e addr shares p = liquidity_stake_lp e addr (some shares) p
  stake_if false e addr shares p = ok p

  unfoldable pub liquidity_deposit : Env → ℕ → ℕ → Bool → Pool → Result Pool
  unfolding liquidity_deposit_inner add_deposit_history stake_if
  liquidity_deposit e addr amount stake_to_xlp p = do
    (lp_shares, p1) ← liquidity_deposit_inner e addr amount (not stake_to_xlp) p
    p2 ← add_deposit_history e addr lp_shares amount stake_to_xlp p1
    stake_if stake_to_xlp e addr lp_shares p2

  unfoldable pub min_unlocked_liquidity : Env → Signed → Result ℕ
  unfolding notional_to_collateral non_zero div_non_zero
  min_unlocked_liquidity e net = do
    exposure ← notional_to_collateral e net.value
    leverage ← context (non_zero e.carry_leverage) failed
    div_non_zero exposure leverage

  -- The shares to withdraw: all of them, or what is asked if that much is held.
  unfoldable pub requested : ℕ → Option ℕ → Result ℕ
  requested held none = ok held
  requested held (some amount) = ensure (leb amount held) withdraw_too_much >> ok amount

  -- Dust in the pool is dropped with the last token.
  unfoldable pub clear_dust : LiquidityStats → Result LiquidityStats
  unfolding total_tokens total_collateral approx_eq
  clear_dust s = total_tokens s >>= λ tokens.
      if tokens == 0
      then (total_collateral s >>= λ collateral.
          approx_eq collateral 0 >>= λ dust. ensure dust failed >> ok no_liquidity)
      else ok s

  -- The end of `liquidity_withdraw`: the totals are written and the collateral is sent.
  unfoldable pub pay_out : Env → ℕ → ℕ → ℕ → LiquidityStats → Pool → Result Pool
  unfolding save_stats pool_size_events add_transfer add_action collateral_to_usd_non_zero
  pay_out e addr shares to_return new_stats p = do
    p1 ← save_stats new_stats p
    pool_size_events e new_stats
    p2 ← add_transfer addr to_return p1
    p3 ← add_action e addr withdraw (some shares) to_return p2
    to_return_usd ← collateral_to_usd_non_zero e to_return
    ok p3

  -- The middle of `liquidity_withdraw`: the totals after the shares are burnt, with what they return.
  unfoldable pub burn_shares : Env → ℕ → LiquidityStats → Result (ℕ × LiquidityStats)
  unfolding total_collateral lp_to_collateral_non_zero net_notional min_unlocked_liquidity
      checked_add checked_sub clear_dust
  burn_shares e shares stats = do
    collateral ← total_collateral stats
    to_return ← lp_to_collateral_non_zero stats shares
    net ← net_notional e
    min_unlocked ← min_unlocked_liquidity e net
    needed ← checked_add to_return min_unlocked
    ensure (leb needed stats.unlocked) insufficient_liquidity
    total_lp ← checked_sub stats.total_lp shares
    unlocked ← checked_sub stats.unlocked to_return
    new_stats ← clear_dust (record stats { total_lp = total_lp; unlocked = unlocked })
    ok (to_return, new_stats)

  unfoldable pub liquidity_withdraw : Env → ℕ → Option ℕ → Pool → Result Pool
  unfolding perform_lp_book_keeping load_addr ensure_liquidity_cooldown non_zero requested
      checked_sub save_addr burn_shares pay_out
  liquidity_withdraw e addr lp_amount p = do
    p1 ← perform_lp_book_keeping e addr p
    a ← load_addr addr p1
    ensure_liquidity_cooldown e a
    old_lp ← context (non_zero a.lp) failed
    shares ← requested old_lp lp_amount
    lp ← checked_sub a.lp shares
    let p2 = save_addr addr (record a { lp = lp }) p1
    (to_return, new_stats) ← burn_shares e shares p2.stats
    pay_out e addr shares to_return new_stats p2

  unfoldable pub total_yield : AddrStats → Result ℕ
  unfolding checked_add
  total_yield a = do
    s1 ← checked_add a.lp_accrued_yield a.xlp_accrued_yield
    s2 ← checked_add s1 a.crank_rewards
    checked_add s2 a.referrer_rewards

  -- `register_lp_claimed_yield` of contracts/market/src/state/fees.rs.
  unfoldable pub register_lp_claimed_yield : ℕ → Pool → Result Pool
  unfolding checked_sub
  register_lp_claimed_yield amount p = do
    wallets ← checked_sub p.fees.wallets amount
    ok (record p { fees = record p.fees { wallets = wallets } })

  unfoldable pub send_yield : Bool → Env → ℕ → ℕ → Pool → Result Pool
  unfolding add_transfer add_claim_history
  send_yield true e addr amount p =
      add_transfer addr amount p >>= λ p1. add_claim_history e addr amount p1
  send_yield false e addr amount p = ok p

  -- Returns the amount of collateral claimed.
  unfoldable pub liquidity_claim_yield : Env → ℕ → Bool → Pool → Result (ℕ × Pool)
  unfolding perform_lp_book_keeping load_addr total_yield non_zero save_addr
      register_lp_claimed_yield send_yield
  liquidity_claim_yield e addr send_to_wallet p = do
    p1 ← perform_lp_book_keeping e addr p
    a ← load_addr addr p1
    sum ← total_yield a
    claimed ← context (non_zero sum) no_yield_to_claim
    let rest = record a {
      lp_accrued_yield = 0;
      xlp_accrued_yield = 0;
      crank_rewards = 0;
      referrer_rewards = 0;
    }
    p2 ← register_lp_claimed_yield claimed (save_addr addr rest p1)
    p3 ← send_yield send_to_wallet e addr claimed p2
    ok (claimed, p3)

  -- What is reinvested of the claimed yield; the remainder goes to the wallet.
  unfoldable pub reinvested : Env → ℕ → ℕ → Option ℕ → Pool → Result (ℕ × Pool)
  unfolding checked_sub add_transfer add_claim_history
  reinvested e addr claimed none p = ok (claimed, p)
  reinvested e addr claimed (some amount) p =
      context (to_option (checked_sub claimed amount)) insufficient_for_reinvest >>= λ remainder.
      if remainder == 0
      then ok (amount, p)
      else (add_transfer addr remainder p >>= λ p1.
          add_claim_history e addr remainder p1 >>= λ p2. ok (amount, p2))

  unfoldable pub reinvest_yield : Env → ℕ → Option ℕ → Bool → Pool → Result Pool
  unfolding liquidity_claim_yield reinvested liquidity_deposit_inner stake_if add_action
  reinvest_yield e addr amount stake_to_xlp p = do
    (claimed, p1) ← liquidity_claim_yield e addr false p
    (invested, p2) ← reinvested e addr claimed amount p1
    (lp_shares, p3) ← liquidity_deposit_inner e addr invested false p2
    p4 ← stake_if stake_to_xlp e addr lp_shares p3
    let kind = if stake_to_xlp then reinvest_yield_xlp else reinvest_yield_lp
    add_action e addr kind (some lp_shares) invested p4
