-- ===== src/Liquidity/Fees.antt =====
-- The fees of the market: contracts/market/src/state/fees.rs. A fee is earmarked: the balances say how
-- much of the collateral that the contract holds belongs to wallets, to the protocol and to cranks.
use levana_perps.Cosmwasm.{one, Cosmwasm}
use levana_perps.Liquidity.Locking.{process_new_yield, add_lp_crank_rewards}
use levana_perps.Liquidity.State.{Pool, Env}
use levana_perps.Liquidity.Storage.{collateral_to_usd, collateral_to_usd_non_zero}
use levana_perps.Number.Signed.{Signed, new_positive, try_into_non_negative_value}
use levana_perps.Number.Unsigned.{checked_mul_dec, checked_add, checked_sub}
use levana_perps.Prelude.{
  if◌then◌else◌, leb, unwrap_or, ◌==◌, ◌>>◌, ◌>>=◌, overflow, ensure, Result, context, failed, ok,
  ℕ, ◌*◌, not, ◌||◌, Option,
}

-- The configuration of the fees, and the last values of the two borrow fee series.
pub record FeeRates : Type 0 where
  pub protocol_tax : ℕ
  pub crank_fee_reward : ℕ
  pub lp_borrow_fee : Option Signed
  pub xlp_borrow_fee : Option Signed

module _ ⦃c : Cosmwasm⦄ where
  -- What is left of an amount after the tax of the protocol, and the tax.
  unfoldable pub take_tax : ℕ → ℕ → Result (ℕ × ℕ)
  unfolding checked_mul_dec checked_sub
  take_tax tax amount = do
    protocol_fee ← checked_mul_dec amount tax
    rest ← checked_sub amount protocol_fee
    ok (rest, protocol_fee)

  -- The last borrow fee of a series, 0 where there is none.
  unfoldable pub last_fee : Option Signed → Result ℕ
  last_fee o = context (try_into_non_negative_value (unwrap_or o (new_positive 0))) failed

  -- The fee is split in the ratio of the borrow fees, where both are positive.
  unfoldable pub split_fee : ℕ → ℕ → ℕ → Result (ℕ × ℕ)
  unfolding checked_add checked_sub
  split_fee lp xlp fee =
      if lp == 0
      then ok (0, fee)
      else (if xlp == 0
          then ok (fee, 0)
          else (context (c.dec_checked_mul fee lp) overflow >>= λ product.
              context (c.dec_checked_add lp xlp) overflow >>= λ both.
              context (c.dec_checked_div product both) overflow >>= λ lp_fee.
              checked_sub fee lp_fee >>= λ xlp_fee. ok (lp_fee, xlp_fee)))

  -- The balances of the fees after a fee is earmarked.
  unfoldable pub earmark : ℕ → ℕ → ℕ → Pool → Result Pool
  unfolding checked_add
  earmark lp_fee xlp_fee protocol_fee p = do
    both ← checked_add lp_fee xlp_fee
    wallets ← checked_add p.fees.wallets both
    protocol ← checked_add p.fees.protocol protocol_fee
    ok (record p { fees = record p.fees { wallets = wallets; protocol = protocol } })

  -- The dollar values of the event can fail.
  unfoldable pub fee_event : Env → ℕ → ℕ → ℕ → Result (Unit {0})
  unfolding collateral_to_usd
  fee_event e lp_fee xlp_fee protocol_fee = do
    lp_usd ← collateral_to_usd e lp_fee
    xlp_usd ← collateral_to_usd e xlp_fee
    protocol_usd ← collateral_to_usd e protocol_fee
    ok tt

  unfoldable pub collect_trading_fee_inner : FeeRates → Env → ℕ → Pool → Result Pool
  unfolding take_tax last_fee split_fee earmark process_new_yield fee_event
  collect_trading_fee_inner f e amount p = do
    (rest, protocol_fee) ← take_tax f.protocol_tax amount
    lp ← last_fee f.lp_borrow_fee
    xlp ← last_fee f.xlp_borrow_fee
    ensure (not (lp == 0) || not (xlp == 0)) failed
    (lp_fee, xlp_fee) ← split_fee lp xlp rest
    p1 ← earmark lp_fee xlp_fee protocol_fee p
    p2 ← process_new_yield lp_fee xlp_fee p1
    fee_event e lp_fee xlp_fee protocol_fee
    ok p2

  -- `collect_borrow_fee` and `BorrowFeeCollection::apply`, where the first writes nothing.
  unfoldable pub collect_borrow_fee : FeeRates → Env → ℕ → ℕ → Pool → Result Pool
  unfolding take_tax checked_add process_new_yield fee_event earmark
  collect_borrow_fee f e lp_amount xlp_amount p = do
    (lp_fee, protocol_lp) ← take_tax f.protocol_tax lp_amount
    (xlp_fee, protocol_xlp) ← take_tax f.protocol_tax xlp_amount
    protocol_fee ← checked_add protocol_lp protocol_xlp
    p1 ← process_new_yield lp_fee xlp_fee p
    fee_event e lp_fee xlp_fee protocol_fee
    earmark lp_fee xlp_fee protocol_fee p1

  -- `provide_crank_funds`, and `CapCrankFee::apply` but for its events.
  unfoldable pub provide_crank_funds : ℕ → Pool → Result Pool
  unfolding checked_add
  provide_crank_funds amount p = do
    crank ← checked_add p.fees.crank amount
    ok (record p { fees = record p.fees { crank = crank } })

  -- A payment that is not 0, from the crank fees to a wallet.
  unfoldable pub pay_crank : Env → ℕ → ℕ → Pool → Result Pool
  unfolding checked_sub checked_add add_lp_crank_rewards collateral_to_usd_non_zero
  pay_crank e addr payment p = do
    crank ← checked_sub p.fees.crank payment
    wallets ← checked_add p.fees.wallets payment
    p1 ←
        add_lp_crank_rewards addr payment
          (record p { fees = record p.fees { crank = crank; wallets = wallets } })
    payment_usd ← collateral_to_usd_non_zero e payment
    ok p1

  unfoldable pub allocate_crank_fees : FeeRates → Env → ℕ → ℕ → Pool → Result Pool
  unfolding pay_crank
  allocate_crank_fees f e addr cranks p =
      if cranks == 0
      then ok p
      else (context (c.dec_checked_mul f.crank_fee_reward (cranks * one)) overflow
          >>= λ max_payments.
              let payment = if leb max_payments p.fees.crank then max_payments else p.fees.crank in
              if payment == 0 then ok p else pay_crank e addr payment p)
