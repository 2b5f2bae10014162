-- ===== src/Liquidity/Working.antt =====
-- An entry of the pool that a call has loaded and changes before it is written back, in
-- contracts/market/src/state/liquidity.rs.
use levana_perps.Cosmwasm.{Cosmwasm}
use levana_perps.Liquidity.Books.{
  save_addr-IsDict, entry_lp, xlp_weight, lp_held, IsBooked, Entry, save_addr-sums, IsUnstaking,
  entry_xlp, lp_weight, save_addr-reset, save_addr-Entry, xlp_held,
}
use levana_perps.Liquidity.Stats.{total_collateral, total_tokens}
use levana_perps.Liquidity.State.{AddrStats, no_liquidity, begin, LiquidityStats, Pool}
use levana_perps.Liquidity.KeepsBooks.{Loaded, Reads}
use levana_perps.Liquidity.Storage.{save_stats, save_addr}
use levana_perps.Prelude.{
  ◌==◌, Ensures-if, if◌then◌else◌, Ensures, Ensures-then, ℕ, ◌+◌, ◌≡◌, refl, sym, subst, ◌∙◌, Bool,
  true, false, none, some, arith,
}
use levana_perps.Prelude.Dict.{may_load, IsDict}

-- The books of the pool with `a` in the place of the entry of `addr`.
pub record IsWorking (addr : ℕ) (a : AddrStats) (p : Pool) : Type 0 where
  pub distinct : IsDict p.by_addr
  pub linear : (k : ℕ) → Entry (may_load k p.by_addr)
  pub unstaking : IsUnstaking a.unstaking
  pub lp_total : p.reset ≡ none → p.stats.total_lp + entry_lp addr p ≡ lp_held p + lp_weight a
  pub xlp_total : p.reset ≡ none → p.stats.total_xlp + entry_xlp addr p ≡ xlp_held p + xlp_weight a

pub open_entry :
    (addr : ℕ) (a : AddrStats) (p : Pool) → IsBooked p → Loaded addr p a → IsWorking addr a p
open_entry addr a p k (lp, xlp, u) = record {
  distinct = k.distinct;
  linear = k.linear;
  unstaking = u (k.linear addr);
  lp_total = λ idle. omega (arith, k.lp_total idle);
  xlp_total = λ idle. omega (arith, k.xlp_total idle);
}

-- The entry and the totals change by the same amounts.
pub change_entry :
    (addr : ℕ) (a b : AddrStats) (s : LiquidityStats) (p : Pool)
    → IsWorking addr a p
    → IsUnstaking b.unstaking
    → s.total_lp + lp_weight a ≡ p.stats.total_lp + lp_weight b
    → s.total_xlp + xlp_weight a ≡ p.stats.total_xlp + xlp_weight b
    → IsWorking addr b (record p { stats = s })
change_entry addr a b s p w u lp xlp = record {
  distinct = w.distinct;
  linear = w.linear;
  unstaking = u;
  lp_total = λ idle. omega (arith, w.lp_total idle);
  xlp_total = λ idle. omega (arith, w.xlp_total idle);
}

save_addr-stats :
    (addr : ℕ) (a : AddrStats) (p : Pool)
    → ((save_addr addr a p).stats.total_lp ≡ p.stats.total_lp)
      × ((save_addr addr a p).stats.total_xlp ≡ p.stats.total_xlp)
unfolding save_addr
save_addr-stats addr a p = (refl, refl)

-- The entry is written back.
pub close_entry :
    (addr : ℕ) (a : AddrStats) (p : Pool) → IsWorking addr a p → IsBooked (save_addr addr a p)
close_entry addr a p w =
    let (lp_sum, xlp_sum) = save_addr-sums addr a p in
    record {
      distinct = save_addr-IsDict addr a p w.distinct;
      linear = λ k. save_addr-Entry addr k a p w.distinct (w.linear k) w.unstaking;
      lp_total = λ idle. omega (arith, w.lp_total (kept idle), save_addr-stats addr a p);
      xlp_total = λ idle. omega (arith, w.xlp_total (kept idle), save_addr-stats addr a p);
    }
  where
    kept : (save_addr addr a p).reset ≡ none → p.reset ≡ none
    kept idle = save_addr-reset addr a p ∙ idle

-- What `save_stats` leaves: the totals given, unless a reset of the balances is due.
abbrev pub Wrote : LiquidityStats → Pool → Pool → Type 0
Wrote s p q = (q.by_addr ≡ p.by_addr) × (q.reset ≡ none → (q.stats ≡ s) × (p.reset ≡ none))

either_written :
    (s : LiquidityStats) (p : Pool) (b : Bool)
    → Wrote s p (
        if b then record p { stats = no_liquidity; reset = some begin } else record p { stats = s })
either_written s p true = (refl, λ h. cc)
either_written s p false = (refl, λ h. (refl, h))

pub save_stats-Wrote :
    ⦃c : Cosmwasm⦄ → (s : LiquidityStats) (p : Pool) → Ensures (Wrote s p) (save_stats s p)
unfolding save_stats
save_stats-Wrote s p = Ensures-then (Wrote s p) (total_collateral s) _ λ collateral _.
    Ensures-if (Wrote s p) (collateral == 0) _ _
      (λ _. Ensures-then (Wrote s p) (total_tokens s) _ λ tokens _. either_written s p _)
      λ _. either_written s p false

pub Wrote-IsBooked :
    (s : LiquidityStats) (p q : Pool) → IsBooked (record p { stats = s }) → Wrote s p q → IsBooked q
Wrote-IsBooked s p q k (same, totals) = record {
  distinct = subst IsDict (sym same) k.distinct;
  linear = λ addr. rw same (k.linear addr);
  lp_total = λ idle. let (e, was_idle) = totals idle in rw (same, e) (k.lp_total was_idle);
  xlp_total = λ idle. let (e, was_idle) = totals idle in rw (same, e) (k.xlp_total was_idle);
}

pub Wrote-IsWorking :
    (addr : ℕ) (a : AddrStats) (s : LiquidityStats) (p q : Pool)
    → IsWorking addr a (record p { stats = s })
    → Wrote s p q
    → IsWorking addr a q
Wrote-IsWorking addr a s p q k (same, totals) = record {
  distinct = subst IsDict (sym same) k.distinct;
  linear = λ n. rw same (k.linear n);
  unstaking = k.unstaking;
  lp_total = λ idle. let (e, was_idle) = totals idle in rw (same, e) (k.lp_total was_idle);
  xlp_total = λ idle. let (e, was_idle) = totals idle in rw (same, e) (k.xlp_total was_idle);
}

pub Wrote-Loaded :
    (addr : ℕ) (a : AddrStats) (s : LiquidityStats) (p q : Pool)
    → Wrote s p q
    → Loaded addr q a
    → Loaded addr p a
Wrote-Loaded addr a s p q (same, _) l = subst (λ d. Reads (may_load addr d) a) same l
