-- ===== src/Liquidity/Storage.antt =====
-- Reading and writing the pool: contracts/market/src/state/liquidity/stats.rs, the yields of
-- contracts/market/src/state/liquidity.rs, the history of contracts/market/src/state/history/lp.rs and
-- the prices of packages/perpswap/src/price.rs. The cache of a call is not modelled: it holds what the
-- storage holds.
use levana_perps.Cosmwasm.{Cosmwasm}
use levana_perps.Liquidity.Stats.{total_collateral, total_tokens}
use levana_perps.Liquidity.State.{
  LpAction, Env, deposit_xlp, is_empty, claim_yield, begin, no_liquidity, new_addr_stats,
  deposit_lp, YieldPerToken, LiquidityStats, LpHistorySummary, AddrStats, LpActionKind, Pool,
}
use levana_perps.Number.Signed.{new_positive, Signed, signed_sub}
use levana_perps.Number.NonZero.{non_zero}
use levana_perps.Number.Unsigned.{checked_sub, checked_add, div_non_zero}
use levana_perps.Prelude.{
  ◌==◌, if◌then◌else◌, ltb, unwrap_or, context, Result, panic, not_found, err, ◌>>=◌, ok, ◌>>◌, ℕ,
  Bool, not, Option, none, some, List, [], ◌∷◌, ◌++◌,
}
use levana_perps.Prelude.Dict.{remove, may_load, save}

module _ ⦃c : Cosmwasm⦄ where
  -- `PriceCollateralInUsd::collateral_to_usd`.
  unfoldable pub collateral_to_usd : Env → ℕ → Result ℕ
  collateral_to_usd e amount = context (c.dec_mul amount e.price_usd) panic

  unfoldable pub collateral_to_usd_non_zero : Env → ℕ → Result ℕ
  unfolding collateral_to_usd non_zero
  collateral_to_usd_non_zero e amount = do
    worth ← collateral_to_usd e amount
    context (non_zero worth) panic

  unfoldable pub notional_to_collateral : Env → ℕ → Result ℕ
  notional_to_collateral e amount = context (c.dec_mul amount e.price_notional) panic

  -- The open interest of longs less that of shorts.
  unfoldable pub net_notional : Env → Result Signed
  unfolding signed_sub
  net_notional e = signed_sub (new_positive e.open_long) (new_positive e.open_short)

-- `load_liquidity_stats_addr`.
unfoldable pub load_addr : ℕ → Pool → Result AddrStats
load_addr addr p = context (may_load addr p.by_addr) not_found

-- `latest_yield_per_token`; the map is never empty, which the source expects.
unfoldable pub latest_yield : Pool → Result (ℕ × YieldPerToken)
latest_yield p = elim p.yields [ [] ↦ err panic | entry ∷ rest ↦ ok entry ]

unfoldable pub load_yield : ℕ → List (ℕ × YieldPerToken) → Result YieldPerToken
load_yield key [] = err not_found
load_yield key ((k, y) ∷ rest) = if key == k then ok y else load_yield key rest

-- A write in the order of the keys.
unfoldable pub save_yield : ℕ → YieldPerToken → List (ℕ × YieldPerToken) → List (ℕ × YieldPerToken)
save_yield key y [] = (key, y) ∷ []
save_yield key y ((k, old) ∷ rest) =
    if ltb k key
    then (key, y) ∷ (k, old) ∷ rest
    else if key == k
    then (key, y) ∷ rest
    else (k, old) ∷ save_yield key y rest

-- A stored entry, or a new one that accrues from the latest yield.
unfoldable pub or_new : Option AddrStats → Pool → Result AddrStats
unfolding latest_yield
or_new none p = do entry ← latest_yield p; ok (new_addr_stats entry.0)
or_new (some a) p = ok a

unfoldable pub load_addr_default : ℕ → Pool → Result AddrStats
unfolding or_new
load_addr_default addr p = or_new (may_load addr p.by_addr) p

-- `save_liquidity_stats_addr`: an empty entry is removed.
unfoldable pub save_addr : ℕ → AddrStats → Pool → Pool
save_addr addr a p = record p {
  by_addr = if is_empty a then remove addr p.by_addr else save addr a p.by_addr;
}

module _ ⦃c : Cosmwasm⦄ where
  -- `add_token_transfer_msg`: the transfers of a call to one account are added up.
  unfoldable pub transfer_total : ℕ → ℕ → Pool → Result ℕ
  unfolding checked_add
  transfer_total addr amount p = elim (may_load addr p.transfers) [
    | none ↦ ok amount
    | some old ↦ checked_add old amount
  ]

  unfoldable pub add_transfer : ℕ → ℕ → Pool → Result Pool
  unfolding transfer_total
  add_transfer addr amount p = do
    total ← transfer_total addr amount p
    ok (record p { transfers = save addr total p.transfers })

  -- `save_liquidity_stats`: without collateral but with tokens left, the balances are to be reset.
  unfoldable pub save_stats : LiquidityStats → Pool → Result Pool
  unfolding total_collateral total_tokens
  save_stats s p = total_collateral s >>= λ collateral.
      if collateral == 0
      then (total_tokens s >>= λ tokens. ok (
          if not (tokens == 0)
          then record p { stats = no_liquidity; reset = some begin }
          else record p { stats = s }))
      else ok (record p { stats = s })

  -- The values of `LiquidityPoolSizeEvent::from_stats`, which can fail.
  pool_size_values : Env → LiquidityStats → Result (Unit {0})
  unfolding total_collateral total_tokens checked_sub collateral_to_usd
  pool_size_values e s = do
    collateral ← total_collateral s
    tokens ← total_tokens s
    lp_collateral ←
        if tokens == 0
        then ok 0
        else context (c.dec_mul collateral s.total_lp) panic >>= λ product.
            div_non_zero product tokens
    xlp_collateral ← if tokens == 0 then ok 0 else checked_sub collateral lp_collateral
    locked_usd ← collateral_to_usd e s.locked
    unlocked_usd ← collateral_to_usd e s.unlocked
    ok tt

  -- `add_pool_size_change_events`: the values that it computes can fail; the events are not kept.
  unfoldable pub pool_size_events : Env → LiquidityStats → Result (Unit {0})
  unfolding pool_size_values total_collateral net_notional notional_to_collateral
  pool_size_events e s = do
    pool_size_values e s
    collateral ← total_collateral s
    net ← net_notional e
    exposure ← notional_to_collateral e net.value
    ok tt

  -- `lp_history_add_action`.
  unfoldable pub add_action : Env → ℕ → LpActionKind → Option ℕ → ℕ → Pool → Result Pool
  unfolding collateral_to_usd
  add_action e addr kind tokens collateral p = do
    worth ← collateral_to_usd e collateral
    let action : LpAction = record {
      kind = kind;
      timestamp = e.now;
      tokens = tokens;
      collateral = collateral;
      collateral_usd = worth;
    }
    ok (record p { history = p.history ++ ((addr, action) ∷ []) })

  abbrev no_summary : LpHistorySummary
  no_summary = record { deposit = 0; deposit_usd = 0; yielded = 0; yielded_usd = 0 }

  -- `lp_history_add_summary_deposit`.
  unfoldable pub add_summary_deposit : Env → ℕ → ℕ → Pool → Result Pool
  unfolding collateral_to_usd checked_add
  add_summary_deposit e addr amount p = do
    let old = unwrap_or (may_load addr p.summaries) no_summary
    worth ← collateral_to_usd e amount
    total ← checked_add old.deposit amount
    total_usd ← checked_add old.deposit_usd worth
    ok (record p {
      summaries = save addr (record old { deposit = total; deposit_usd = total_usd }) p.summaries;
    })

  -- `lp_history_add_summary_yield`.
  unfoldable pub add_summary_yield : Env → ℕ → ℕ → Pool → Result Pool
  unfolding collateral_to_usd checked_add
  add_summary_yield e addr amount p = do
    let old = unwrap_or (may_load addr p.summaries) no_summary
    worth ← collateral_to_usd e amount
    total ← checked_add old.yielded amount
    total_usd ← checked_add old.yielded_usd worth
    ok (record p {
      summaries = save addr (record old { yielded = total; yielded_usd = total_usd }) p.summaries;
    })

  -- `lp_history_add_deposit` and `lp_history_add_claim_yield`; the other entries are plain actions.
  unfoldable pub add_deposit_history : Env → ℕ → ℕ → ℕ → Bool → Pool → Result Pool
  unfolding add_action add_summary_deposit
  add_deposit_history e addr tokens collateral is_xlp p = do
    p1 ← add_action e addr (if is_xlp then deposit_xlp else deposit_lp) (some tokens) collateral p
    add_summary_deposit e addr collateral p1

  unfoldable pub add_claim_history : Env → ℕ → ℕ → Pool → Result Pool
  unfolding add_action add_summary_yield
  add_claim_history e addr collateral p = do
    p1 ← add_action e addr claim_yield none collateral p
    add_summary_yield e addr collateral p1
