-- ===== src/Liquidity/StakingBooks.antt =====
-- The books of the pool under staking and unstaking, in contracts/market/src/state/liquidity.rs.
use levana_perps.Liquidity.Stats.{lp_to_collateral_non_zero}
use levana_perps.Cosmwasm.{IsDocumented, Cosmwasm}
use levana_perps.Liquidity.Working.{
  IsWorking, open_entry, Wrote-IsBooked, change_entry, Wrote-IsWorking, Wrote, save_stats-Wrote,
  close_entry,
}
use levana_perps.Liquidity.Keeping.{seconds, perform_lp_book_keeping}
use levana_perps.Liquidity.Books.{IsLinear, IsUnstaking, xlp_weight, IsBooked, lp_weight}
use levana_perps.Liquidity.State.{unstake_xlp, Env, Pool, UnstakingXlp, LiquidityStats, AddrStats}
use levana_perps.Liquidity.KeepsBooks.{
  add_action-IsBooked, perform_lp_book_keeping-SameTotals, SameTotals, load_addr_ok,
}
use levana_perps.Liquidity.Storage.{save_addr, load_addr, save_stats}
use levana_perps.Liquidity.Staking.{
  liquidity_unstake_xlp, begin_unstaking, liquidity_stop_unstaking_xlp, stop_unstaking, asked,
  restore, liquidity_stake_lp,
}
use levana_perps.Number.NonZero.{non_zero}
use levana_perps.Number.Exact.{non_zero_ok, checked_add_ok, to_option_sub_ok, checked_sub_ok}
use levana_perps.Number.Unsigned.{checked_add, checked_sub}
use levana_perps.Prelude.{
  true, false, unwrap_or, ◌==◌, Ensures-if, Ensures-map, failed, Ensures-bind, invalid_stake_lp,
  to_option, Error, context, ok, Ensures, Ensures-then, ℕ, ◌+◌, ◌<◌, ◌≡◌, refl, Bool, Option, none,
  some, arith,
}

-- An optional amount of type `NonZero`.
abbrev pub NonZeroIfGiven : Option ℕ → Type 0
NonZeroIfGiven none = Unit {0}
NonZeroIfGiven (some n) = 0 < n

pub non_zero_positive : (a : ℕ) (e : Error) {r : ℕ} → context (non_zero a) e ≡ ok r → 0 < r
unfolding non_zero
non_zero_positive a e h = ground arith

module _ ⦃c : Cosmwasm⦄ where
  asked_positive :
      (owned : ℕ) (o : Option ℕ) {r : ℕ}
      → 0 < owned
      → NonZeroIfGiven o
      → asked owned o ≡ ok r
      → 0 < r
  unfolding asked
  asked_positive owned none some_owned _ h = ground arith
  asked_positive owned (some n) some_owned given h = ground arith

  -- An entry and the totals are written by the same amounts.
  pub write_both :
      (addr : ℕ) (a b : AddrStats) (s : LiquidityStats) (p : Pool)
      → IsWorking addr a p
      → IsUnstaking b.unstaking
      → s.total_lp + lp_weight a ≡ p.stats.total_lp + lp_weight b
      → s.total_xlp + xlp_weight a ≡ p.stats.total_xlp + xlp_weight b
      → Ensures IsBooked (save_stats s (save_addr addr b p))
  unfolding save_addr
  write_both addr a b s p w u lp xlp =
      let q = save_addr addr b p in
      let booked =
        close_entry addr b (record p { stats = s }) (change_entry addr a b s p w u lp xlp) in
      Ensures-map (Wrote s q) IsBooked (save_stats s q) (save_stats-Wrote s q)
        λ r wrote. Wrote-IsBooked s q r booked wrote

module _ ⦃c : Cosmwasm⦄ (doc : IsDocumented c) where
  -- Staking keeps the books.
  pub liquidity_stake_lp-IsBooked :
      (e : Env) (addr : ℕ) (o : Option ℕ) (p : Pool)
      → IsBooked p
      → Ensures IsBooked (liquidity_stake_lp e addr o p)
  unfolding liquidity_stake_lp save_addr
  liquidity_stake_lp-IsBooked e addr o p k =
      Ensures-bind (SameTotals p.stats) IsBooked (perform_lp_book_keeping e addr p) _
        (perform_lp_book_keeping-SameTotals doc e addr p k)
        λ p1 k1. Ensures-then IsBooked (load_addr addr p1) _ λ a found.
          Ensures-then IsBooked (context (non_zero a.lp) failed) _ λ old owned.
            let amount = unwrap_or o old in
            Ensures-then IsBooked (context (to_option (checked_sub old amount)) invalid_stake_lp) _
              λ new_lp sub. Ensures-then IsBooked (checked_add a.xlp amount) _ λ new_xlp add.
                Ensures-then IsBooked (checked_sub p1.stats.total_lp amount) _ λ total_lp less.
                  Ensures-then IsBooked (checked_add p1.stats.total_xlp amount) _ λ total_xlp more.
                    let working = open_entry addr a p1 k1.0 (load_addr_ok addr p1 found) in
                    write_both addr a (record a { lp = new_lp; xlp = new_xlp })
                      (record p1.stats { total_lp = total_lp; total_xlp = total_xlp }) p1 working
                      working.unstaking
                      (omega (
                        arith,
                        non_zero_ok a.lp failed owned,
                        to_option_sub_ok doc old amount invalid_stake_lp sub,
                        checked_sub_ok doc p1.stats.total_lp amount less,
                      ))
                      (omega (
                        arith,
                        checked_add_ok doc a.xlp amount add,
                        checked_add_ok doc p1.stats.total_xlp amount more,
                      ))

  -- What `liquidity_stop_unstaking_xlp` returns, before the entry is written.
  abbrev Returns : ℕ → AddrStats × Pool → Type 0
  Returns addr r = (r.0.unstaking ≡ none) × IsWorking addr r.0 r.1

  restore-Returns :
      (addr : ℕ) (a : AddrStats) (u : UnstakingXlp) (p : Pool)
      → a.unstaking ≡ some u
      → IsWorking addr a p
      → Ensures (Returns addr) (restore addr a u p)
  unfolding restore
  restore-Returns addr a u p busy w =
      Ensures-then (Returns addr) (checked_sub u.xlp_amount u.collected) _ λ rest pend.
        let pends : rest + u.collected ≡ u.xlp_amount =
          checked_sub_ok doc u.xlp_amount u.collected pend in
        Ensures-if (Returns addr) (rest == 0) _ _
          (λ nothing. (
            refl,
            change_entry addr a (record a { unstaking = none }) p.stats p w tt
                (rw busy (ground (arith, nothing))) refl,
          ))
          λ _. Ensures-then (Returns addr) (checked_sub p.stats.total_lp rest) _ λ total_lp less.
            Ensures-then (Returns addr) (checked_add p.stats.total_xlp rest) _ λ total_xlp more.
              let s = record p.stats { total_lp = total_lp; total_xlp = total_xlp } in
              Ensures-bind (Wrote s p) (Returns addr) (save_stats s p) _ (save_stats-Wrote s p)
                λ p1 wrote. Ensures-then (Returns addr) (checked_add a.xlp rest) _ λ xlp added.
                  let b = record a { unstaking = none; xlp = xlp } in
                  (
                    refl,
                    Wrote-IsWorking addr b s p p1
                        (change_entry addr a b s p w tt
                          (rw busy (omega (arith, checked_sub_ok doc p.stats.total_lp rest less)))
                          (omega (
                            arith,
                            checked_add_ok doc a.xlp rest added,
                            checked_add_ok doc p.stats.total_xlp rest more,
                          )))
                        wrote,
                  )

  stop_unstaking-Returns :
      (addr : ℕ) (a : AddrStats) (o : Option UnstakingXlp) (fails : Bool) (p : Pool)
      → a.unstaking ≡ o
      → IsWorking addr a p
      → Ensures (Returns addr) (stop_unstaking addr a o fails p)
  unfolding stop_unstaking
  stop_unstaking-Returns addr a none fails p o w =
      Ensures-if (Returns addr) fails _ _ (λ _. tt) λ _. (o, w)
  stop_unstaking-Returns addr a (some u) fails p o w = restore-Returns addr a u p o w

  stop_unstaking-Working :
      (e : Env) (addr : ℕ) (fails : Bool) (p : Pool)
      → IsBooked p
      → Ensures (Returns addr) (liquidity_stop_unstaking_xlp e addr fails false p)
  unfolding liquidity_stop_unstaking_xlp
  stop_unstaking-Working e addr fails p k =
      Ensures-bind (SameTotals p.stats) (Returns addr) (perform_lp_book_keeping e addr p) _
        (perform_lp_book_keeping-SameTotals doc e addr p k)
        λ p1 k1. Ensures-then (Returns addr) (load_addr addr p1) _ λ a found.
          Ensures-bind (Returns addr) (Returns addr) (stop_unstaking addr a a.unstaking fails p1) _
            (stop_unstaking-Returns addr a a.unstaking fails p1 refl
              (open_entry addr a p1 k1.0 (load_addr_ok addr p1 found)))
            λ r w. w

  -- Stopping the unstaking keeps the books: what was left of it is xLP again.
  pub liquidity_stop_unstaking_xlp-IsBooked :
      (e : Env) (addr : ℕ) (fails : Bool) (p : Pool)
      → IsBooked p
      → Ensures (λ r. IsBooked r.1) (liquidity_stop_unstaking_xlp e addr fails true p)
  unfolding liquidity_stop_unstaking_xlp
  liquidity_stop_unstaking_xlp-IsBooked e addr fails p k =
      Ensures-bind (SameTotals p.stats) (λ r. IsBooked r.1) (perform_lp_book_keeping e addr p) _
        (perform_lp_book_keeping-SameTotals doc e addr p k)
        λ p1 k1.
          Ensures-then (λ r. IsBooked r.1) (load_addr addr p1) _
            λ a found.
              Ensures-bind (Returns addr) (λ r. IsBooked r.1)
                (stop_unstaking addr a a.unstaking fails p1) _
                (stop_unstaking-Returns addr a a.unstaking fails p1 refl
                  (open_entry addr a p1 k1.0 (load_addr_ok addr p1 found)))
                λ r w. close_entry addr r.0 r.1 w.1

  begun-IsLinear :
      (now amount duration : ℕ)
      → 0 < amount
      → IsLinear (record {
        xlp_amount = amount;
        collected = 0;
        unstake_started = now;
        unstake_duration = duration;
        last_collected = now;
      })
  begun-IsLinear now amount duration h = record {
    open_yet = h;
    begun = omega arith;
    share = omega arith;
  }

  -- An unstaking with nothing pending starts from the entry that was returned.
  start_unstaking :
      (e : Env) (addr amount duration : ℕ) (a : AddrStats) (p : Pool)
      → 0 < amount
      → a.unstaking ≡ none
      → IsWorking addr a p
      → Ensures IsBooked (begin_unstaking e addr amount duration a p)
  unfolding begin_unstaking save_addr
  start_unstaking e addr amount duration a p h idle w =
      Ensures-then IsBooked (checked_sub a.xlp amount) _ λ xlp sub.
        let u : UnstakingXlp = record {
          xlp_amount = amount;
          collected = 0;
          unstake_started = e.now;
          unstake_duration = duration;
          last_collected = e.now;
        } in
        let b : AddrStats = record a { unstaking = some u; xlp = xlp } in
        Ensures-then IsBooked (checked_add p.stats.total_lp amount) _ λ total_lp more.
          Ensures-then IsBooked (checked_sub p.stats.total_xlp amount) _ λ total_xlp less.
            let s = record p.stats { total_lp = total_lp; total_xlp = total_xlp } in
            Ensures-bind IsBooked IsBooked (save_stats s (save_addr addr b p)) _
              (write_both addr a b s p w (begun-IsLinear e.now amount duration h)
                (rw idle (omega (arith, checked_add_ok doc p.stats.total_lp amount more)))
                (omega (
                  arith,
                  checked_sub_ok doc a.xlp amount sub,
                  checked_sub_ok doc p.stats.total_xlp amount less,
                )))
              λ p3 k3. Ensures-then IsBooked (lp_to_collateral_non_zero s amount) _ λ collateral _.
                add_action-IsBooked e addr unstake_xlp (some amount) collateral p3 k3

  -- Unstaking keeps the books: the amount leaves the xLP and is unstaking, which counts as LP. What
  -- was unstaking before is xLP first.
  pub liquidity_unstake_xlp-IsBooked :
      (e : Env) (addr : ℕ) (o : Option ℕ) (p : Pool)
      → NonZeroIfGiven o
      → IsBooked p
      → Ensures IsBooked (liquidity_unstake_xlp e addr o p)
  unfolding liquidity_unstake_xlp
  liquidity_unstake_xlp-IsBooked e addr o p given k =
      Ensures-bind (Returns addr) IsBooked (liquidity_stop_unstaking_xlp e addr false false p) _
        (stop_unstaking-Working e addr false p k)
        λ r w. Ensures-then IsBooked (context (non_zero r.0.xlp) failed) _ λ owned some_owned.
          Ensures-then IsBooked (asked owned o) _ λ amount answer.
            Ensures-then IsBooked (seconds e.unstake_period_seconds) _ λ duration _.
              start_unstaking e addr amount duration r.0 r.1
                (asked_positive owned o (non_zero_positive r.0.xlp failed some_owned) given answer)
                w.0 w.1
