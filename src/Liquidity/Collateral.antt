-- ===== src/Liquidity/Collateral.antt =====
-- The locked and the unlocked collateral of the pool under locking and unlocking, in
-- contracts/market/src/state/liquidity.rs.
use levana_perps.Cosmwasm.{Cosmwasm, uint256_modulus, IsDocumented, documented, eq_documented}
use levana_perps.Liquidity.Locking.{lock_stats, update_locked_stats, net_or, unlock_stats}
use levana_perps.Liquidity.State.{Env, LiquidityStats}
use levana_perps.Liquidity.Provider.{min_unlocked_liquidity}
use levana_perps.Number.Signed.{signed_add, Signed, new_positive}
use levana_perps.Number.Exact.{checked_sub_ok, checked_add_ok}
use levana_perps.Number.Unsigned.{checked_sub, checked_add}
use levana_perps.Number.Integers.{IsNumber}
use levana_perps.Prelude.{
  ◌>>=◌, Result, leb, if◌then◌else◌, ltb, leb→le, unwrap_or, overflow, ok, ensure, failed,
  insufficient_liquidity, err, Ensures, Ensures-ok, ensure-eq-ok, Ensures-then, ℕ, ◌+◌, ◌-◌, ◌≤◌,
  ◌<◌, ◌≡◌, refl, Option, arith,
}
use levana_perps.Cw20.Supply.{moved}

documented_unlock :
    (amount : ℕ) (s : LiquidityStats)
    → s.locked + s.unlocked < uint256_modulus
    → unlock_stats ⦃c = documented⦄ amount s ≡ (
        if leb amount s.locked
        then ok (record s { locked = s.locked - amount; unlocked = s.unlocked + amount })
        else err insufficient_liquidity)
unfolding unlock_stats
documented_unlock amount s h = ground arith

documented_update :
    (amount : Signed) (s : LiquidityStats)
    → s.locked < uint256_modulus
    → IsNumber amount
    → update_locked_stats ⦃c = documented⦄ amount s ≡ (
        if amount.negative
        then (if leb amount.value s.locked
            then ok (record s { locked = s.locked - amount.value })
            else err failed)
        else (if ltb (s.locked + amount.value) uint256_modulus
            then ok (record s { locked = s.locked + amount.value })
            else err overflow))
unfolding update_locked_stats
documented_update amount s h n = ground arith

-- A minimum is computed, and at least that much is there.
abbrev pub Leaves : Result ℕ → ℕ → Type 0
Leaves minimum n = (least : ℕ) × (minimum ≡ ok least) × (least ≤ n)

module _ ⦃c : Cosmwasm⦄ where
  -- The unlocked liquidity that must remain for the open positions, with the change of a lock.
  abbrev pub least_for : Env → Option Signed → Option Signed → Result ℕ
  least_for e delta override = net_or e override >>= λ net.
      signed_add net (unwrap_or delta (new_positive 0)) >>= λ changed.
      min_unlocked_liquidity e changed

module _ ⦃c : Cosmwasm⦄ (doc : IsDocumented c) where
  -- Where the collateral of the pool is below 2^256 atomics, unlocking moves the amount if that much
  -- is locked, and is else refused.
  pub unlock_stats_lem :
      (amount : ℕ) (s : LiquidityStats)
      → s.locked + s.unlocked < uint256_modulus
      → unlock_stats amount s ≡ (
          if leb amount s.locked
          then ok (record s { locked = s.locked - amount; unlocked = s.unlocked + amount })
          else err insufficient_liquidity)
  unlock_stats_lem = rw (eq_documented doc) documented_unlock

  -- For a locked part and an amount in range, a gain or a loss is added exactly to what is locked; a
  -- loss above it is refused, and a gain out of range overflows.
  pub update_locked_stats_lem :
      (amount : Signed) (s : LiquidityStats)
      → s.locked < uint256_modulus
      → IsNumber amount
      → update_locked_stats amount s ≡ (
          if amount.negative
          then (if leb amount.value s.locked
              then ok (record s { locked = s.locked - amount.value })
              else err failed)
          else (if ltb (s.locked + amount.value) uint256_modulus
              then ok (record s { locked = s.locked + amount.value })
              else err overflow))
  update_locked_stats_lem = rw (eq_documented doc) documented_update

  moved_back :
      (amount : ℕ) (s : LiquidityStats)
      → s.locked + s.unlocked < uint256_modulus
      → amount ≤ s.unlocked
      → unlock_stats amount
          (record s { locked = s.locked + amount; unlocked = s.unlocked - amount })
        ≡ ok s
  moved_back amount s fits enough =
      let t = record s { locked = s.locked + amount; unlocked = s.unlocked - amount } in
      rw (unlock_stats_lem amount t (omega arith)) (ground arith)

  -- What a lock that succeeds leaves.
  abbrev Locked : Result ℕ → ℕ → LiquidityStats → LiquidityStats → Type 0
  Locked minimum amount s t =
      (t ≡ record s { locked = s.locked + amount; unlocked = s.unlocked - amount })
      × (amount ≤ s.unlocked)
      × Leaves minimum (s.unlocked - amount)

  lock_stats-Locked :
      (e : Env) (amount : ℕ) (delta override : Option Signed) (s : LiquidityStats)
      → Ensures
          (Locked (least_for e delta override) amount s)
          (lock_stats e amount delta override s)
  unfolding lock_stats
  lock_stats-Locked e amount delta override s =
      let Q = Locked (least_for e delta override) amount s in
      Ensures-then Q (net_or e override) _ λ net has_net.
        Ensures-then Q (signed_add net (unwrap_or delta (new_positive 0))) _ λ changed has_changed.
          Ensures-then Q (min_unlocked_liquidity e changed) _ λ least minimum.
            Ensures-then Q (checked_add least amount) _ λ needed sum.
              Ensures-then Q (ensure (leb needed s.unlocked) insufficient_liquidity) _ λ _ enough.
                Ensures-then Q (checked_add s.locked amount) _ λ locked more.
                  Ensures-then Q (checked_sub s.unlocked amount) _ λ unlocked less.
                    let total = checked_add_ok doc least amount sum in
                    let bound =
                      leb→le needed s.unlocked
                        (ensure-eq-ok (leb needed s.unlocked) insufficient_liquidity enough) in
                    let up = checked_add_ok doc s.locked amount more in
                    let down = checked_sub_ok doc s.unlocked amount less in
                    let rest : unlocked ≡ s.unlocked - amount = omega (arith, down) in
                    let computed : least_for e delta override ≡ ok least =
                      rw (has_net, has_changed) minimum in
                    (
                      rw (up, rest) refl,
                      omega (arith, total, bound),
                      (least, computed, omega (arith, total, bound)),
                    )

  -- Where the collateral of the pool is below 2^256 atomics, a lock that succeeds moves the amount
  -- from the unlocked to the locked part and changes nothing else, and the minimum that the open
  -- positions demand stays unlocked. Unlocking the amount again gives back the totals that were
  -- there.
  pub lock_stats_lem :
      (e : Env) (amount : ℕ) (delta override : Option Signed) (s : LiquidityStats)
      {t : LiquidityStats}
      → s.locked + s.unlocked < uint256_modulus
      → lock_stats e amount delta override s ≡ ok t
      → (t ≡ record s { locked = s.locked + amount; unlocked = s.unlocked - amount })
        × Leaves (least_for e delta override) (s.unlocked - amount)
        × (unlock_stats amount t ≡ ok s)
  lock_stats_lem e amount delta override s {t} fits h =
      let (moved, enough, leaves) =
        Ensures-ok (Locked (least_for e delta override) amount s) _
          (lock_stats-Locked e amount delta override s) h in
      (moved, leaves, rw moved (moved_back amount s fits enough))
