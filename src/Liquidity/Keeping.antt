-- ===== src/Liquidity/Keeping.antt =====
-- The book keeping of a provider: accrued yield and the linear unstaking of xLP, in
-- contracts/market/src/state/liquidity.rs, with the times of packages/perpswap/src/time.rs.
use levana_perps.Cosmwasm.{below, Cosmwasm}
use levana_perps.Liquidity.Stats.{lp_to_collateral_non_zero}
use levana_perps.Liquidity.State.{Env, collect_lp, UnstakingXlp, AddrStats, Pool}
use levana_perps.Liquidity.Storage.{
  latest_yield, load_addr, load_yield, save_addr, add_action, load_addr_default,
}
use levana_perps.Number.Signed.{
  try_into_non_negative_value, signed_sub, signed_mul, signed_div, Signed, new_positive,
}
use levana_perps.Number.Unsigned.{checked_add, checked_sub, checked_mul_dec}
use levana_perps.Prelude.{
  if◌then◌else◌, ◌==◌, ltb, leb, Result, timestamp_underflow, context, ◌>>◌, ok, failed,
  negative_value, panic, ◌>>=◌, ensure, err, ℕ, ◌+◌, ◌-◌, ◌*◌, ◌^◌, Bool, true, false, Option, none,
  some,
}
use levana_perps.Prelude.Dict.{may_load}

-- `Timestamp::checked_sub` and `Timestamp::plus_seconds`, on `u64` with overflow checks.
unfoldable pub elapsed_since : ℕ → ℕ → Result ℕ
elapsed_since t s = if leb s t then ok (t - s) else err timestamp_underflow

unfoldable pub seconds : ℕ → Result ℕ
seconds n = context (below (2 ^ 64) (n * 10 ^ 9)) panic

unfoldable pub plus_seconds : ℕ → ℕ → Result ℕ
unfolding seconds
plus_seconds t n = do d ← seconds n; context (below (2 ^ 64) (t + d)) panic

-- What is left of an unstaking, which counts as LP.
abbrev pub pending : Option UnstakingXlp → ℕ
pending none = 0
pending (some u) = u.xlp_amount - u.collected

module _ ⦃c : Cosmwasm⦄ where
  -- The LP on which yield accrues: an unstaking amount counts whole.
  yielding_lp : AddrStats → Result ℕ
  unfolding checked_add checked_sub
  yielding_lp a = elim a.unstaking [
    | none ↦ ok a.lp
    | some u ↦ checked_sub u.xlp_amount u.collected >>= λ rest. checked_add a.lp rest
  ]

  unfoldable pub calculate_accrued_yield : AddrStats → Pool → Result (Option (ℕ × ℕ × ℕ))
  unfolding latest_yield load_yield yielding_lp checked_sub checked_mul_dec
  calculate_accrued_yield a p = latest_yield p >>= λ latest.
      if latest.0 == a.last_accrue_key
      then ok none
      else (load_yield a.last_accrue_key p.yields >>= λ start. yielding_lp a >>= λ lp.
          checked_sub latest.1.lp start.lp >>= λ lp_sum. checked_mul_dec lp_sum lp >>= λ lp_accrued.
          checked_sub latest.1.xlp start.xlp >>= λ xlp_sum.
          checked_mul_dec xlp_sum a.xlp >>= λ xlp_accrued.
          ok (some (latest.0, lp_accrued, xlp_accrued)))

  unfoldable pub accrue : ℕ → AddrStats → Pool → Option (ℕ × ℕ × ℕ) → Result Pool
  unfolding checked_add save_addr
  accrue addr a p none = ok p
  accrue addr a p (some (index, lp, xlp)) = do
    lp_total ← checked_add a.lp_accrued_yield lp
    xlp_total ← checked_add a.xlp_accrued_yield xlp
    ok (
        save_addr addr
          (record a {
            last_accrue_key = index;
            lp_accrued_yield = lp_total;
            xlp_accrued_yield = xlp_total;
          })
          p)

  unfoldable pub update_accrued_yield : ℕ → Pool → Result Pool
  unfolding load_addr_default calculate_accrued_yield accrue
  update_accrued_yield addr p = do
    a ← load_addr_default addr p
    accrued ← calculate_accrued_yield a p
    accrue addr a p accrued

  -- `Number::from(u64)`.
  number_from : ℕ → Result Signed
  number_from n = context (c.dec_from_ratio n 1) panic >>= λ v. ok (new_positive v)

  unfoldable pub calculate_unstaked_lp : Env → UnstakingXlp → Result ℕ
  unfolding elapsed_since number_from signed_sub signed_div signed_mul
  calculate_unstaked_lp e u = do
    elapsed ← elapsed_since e.now u.unstake_started
    amount ←
        if leb u.unstake_duration elapsed
        then signed_sub (new_positive u.xlp_amount) (new_positive u.collected)
        else (elapsed_since e.now u.last_collected >>= λ since. number_from since >>= λ numerator.
            number_from u.unstake_duration >>= λ denominator.
            signed_div numerator denominator >>= λ ratio.
            signed_mul ratio (new_positive u.xlp_amount))
    context (try_into_non_negative_value amount) negative_value

  -- The end of `collect_unstaked_lp`, with an amount that is not 0.
  unfoldable pub collect_amount : Env → ℕ → AddrStats → UnstakingXlp → ℕ → Pool → Result Pool
  unfolding checked_add save_addr lp_to_collateral_non_zero add_action
  collect_amount e addr a u amount p = do
    collected ← checked_add u.collected amount
    let next = record u { collected = collected; last_collected = e.now }
    ensure (leb collected u.xlp_amount) failed
    lp ← checked_add a.lp amount
    let left : Option UnstakingXlp = if ltb collected u.xlp_amount then some next else none
    let p1 = save_addr addr (record a { lp = lp; unstaking = left }) p
    collateral ← lp_to_collateral_non_zero p1.stats amount
    add_action e addr collect_lp (some amount) collateral p1

  unfoldable pub collect_from :
      Env → ℕ → AddrStats → Option UnstakingXlp → Pool → Result (Bool × Pool)
  unfolding calculate_unstaked_lp collect_amount
  collect_from e addr a none p = err failed
  collect_from e addr a (some u) p = do
    amount ← calculate_unstaked_lp e u
    (if amount == 0
        then ok (false, p)
        else (collect_amount e addr a u amount p >>= λ p1. ok (true, p1)))

  -- The early return of `collect_unstaked_lp`, where nothing is unstaking.
  abbrev pub is_unstaking : ℕ → Pool → Bool
  is_unstaking addr p = elim (may_load addr p.by_addr) [
    | none ↦ false
    | some a ↦ elim a.unstaking [ none ↦ false | some _ ↦ true ]
  ]

  -- Returns whether something was collected.
  unfoldable pub collect_unstaked_lp : Env → ℕ → Pool → Result (Bool × Pool)
  unfolding update_accrued_yield load_addr collect_from
  collect_unstaked_lp e addr p =
      if is_unstaking addr p
      then (update_accrued_yield addr p >>= λ p1.
          load_addr addr p1 >>= λ a. collect_from e addr a a.unstaking p1)
      else ok (false, p)

  unfoldable pub perform_lp_book_keeping : Env → ℕ → Pool → Result Pool
  unfolding update_accrued_yield collect_unstaked_lp
  perform_lp_book_keeping e addr p = do
    p1 ← update_accrued_yield addr p
    (collected, p2) ← collect_unstaked_lp e addr p1
    ok p2
