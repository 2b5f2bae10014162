-- ===== src/Liquidity/Books.antt =====
-- The books of the pool: the totals of LP and xLP tokens are the sums over the providers, where what
-- is still unstaking counts as LP.
use levana_perps.Liquidity.Keeping.{pending}
use levana_perps.Liquidity.State.{
  YieldPerToken, Fees, LpHistorySummary, is_empty, LiquidityStats, LpAction, UnstakingXlp,
  AddrStats, Pool,
}
use levana_perps.Liquidity.Storage.{save_addr}
use levana_perps.Prelude.Dict.{
  save-IsDict, sum-save, may_load-remove, may_load-save, remove-IsDict, sum-remove, Dict, sum,
  IsDict, weight, may_load,
}
use levana_perps.Prelude.{
  ◌==◌, Bool-cases, refl, ◌∙◌, inl, inr, true, List, arith, ℕ, ◌+◌, ◌-◌, ◌*◌, ◌≤◌, ◌<◌, ◌≡◌, Option,
  none, some,
}

-- The LP of a provider, with what is unstaking, and the xLP.
abbrev pub lp_weight : AddrStats → ℕ
lp_weight a = a.lp + pending a.unstaking

abbrev pub xlp_weight : AddrStats → ℕ
xlp_weight a = a.xlp

-- An unstaking collects no more than its share of the time: `collected` is at most
-- `xlp_amount * (last_collected - unstake_started) / unstake_duration`, and less than the whole.
pub record IsLinear (u : UnstakingXlp) : Type 0 where
  pub open_yet : u.collected < u.xlp_amount
  pub begun : u.unstake_started ≤ u.last_collected
  pub share :
      u.collected * u.unstake_duration ≤ u.xlp_amount * (u.last_collected - u.unstake_started)

abbrev pub IsUnstaking : Option UnstakingXlp → Type 0
IsUnstaking none = Unit {0}
IsUnstaking (some u) = IsLinear u

abbrev pub Entry : Option AddrStats → Type 0
Entry none = Unit {0}
Entry (some a) = IsUnstaking a.unstaking

abbrev pub lp_held : Pool → ℕ
lp_held p = sum lp_weight p.by_addr

abbrev pub xlp_held : Pool → ℕ
xlp_held p = sum xlp_weight p.by_addr

-- While the balances are being reset, the totals are 0 and the entries are not yet.
pub record IsBooked (p : Pool) : Type 0 where
  pub distinct : IsDict p.by_addr
  pub linear : (addr : ℕ) → Entry (may_load addr p.by_addr)
  pub lp_total : p.reset ≡ none → p.stats.total_lp ≡ lp_held p
  pub xlp_total : p.reset ≡ none → p.stats.total_xlp ≡ xlp_held p

-- The entry of a provider, with no tokens where there is none.
abbrev pub entry_lp : ℕ → Pool → ℕ
entry_lp addr p = weight lp_weight (may_load addr p.by_addr)

abbrev pub entry_xlp : ℕ → Pool → ℕ
entry_xlp addr p = weight xlp_weight (may_load addr p.by_addr)

is_empty-weights : (a : AddrStats) → is_empty a ≡ true → (lp_weight a ≡ 0) × (xlp_weight a ≡ 0)
is_empty-weights a h = ground arith

pub save_addr-reset : (addr : ℕ) (a : AddrStats) (p : Pool) → p.reset ≡ (save_addr addr a p).reset
unfolding save_addr
save_addr-reset addr a p = refl

-- Writing an entry, also where an empty one is removed, moves the sums by what it moves.
pub save_addr-sums :
    (addr : ℕ) (a : AddrStats) (p : Pool)
    → (lp_held (save_addr addr a p) + entry_lp addr p ≡ lp_held p + lp_weight a)
      × (xlp_held (save_addr addr a p) + entry_xlp addr p ≡ xlp_held p + xlp_weight a)
unfolding save_addr
save_addr-sums addr a p = elim (Bool-cases (is_empty a)) [
  | inl empty ↦
      let (no_lp, no_xlp) = is_empty-weights a empty in
      rw empty (
        omega (arith, sum-remove lp_weight addr p.by_addr),
        omega (arith, sum-remove xlp_weight addr p.by_addr),
      )
  | inr full ↦ rw full (sum-save lp_weight addr a p.by_addr, sum-save xlp_weight addr a p.by_addr)
]

pub save_addr-IsDict :
    (addr : ℕ) (a : AddrStats) (p : Pool) → IsDict p.by_addr → IsDict (save_addr addr a p).by_addr
unfolding save_addr
save_addr-IsDict addr a p d = elim (Bool-cases (is_empty a)) [
  | inl empty ↦ rw empty (remove-IsDict addr p.by_addr d)
  | inr full ↦ rw full (save-IsDict addr a p.by_addr d)
]

pub save_addr-Entry :
    (addr k : ℕ) (a : AddrStats) (p : Pool)
    → IsDict p.by_addr
    → Entry (may_load k p.by_addr)
    → IsUnstaking a.unstaking
    → Entry (may_load k (save_addr addr a p).by_addr)
unfolding save_addr
save_addr-Entry addr k a p d old new = elim (Bool-cases (is_empty a)) [
  | inl empty ↦
      rw (empty, may_load-remove addr k p.by_addr d)
        (elim (Bool-cases (k == addr)) [ inl same ↦ rw same tt | inr other ↦ rw other old ])
  | inr full ↦
      rw (full, may_load-save k addr a p.by_addr)
        (elim (Bool-cases (k == addr)) [ inl same ↦ rw same new | inr other ↦ rw other old ])
]

-- An entry is written, and the totals move with it.
pub save_addr-IsBooked :
    (addr : ℕ) (a : AddrStats) (s : LiquidityStats) (p : Pool)
    → IsBooked p
    → IsUnstaking a.unstaking
    → s.total_lp + entry_lp addr p ≡ p.stats.total_lp + lp_weight a
    → s.total_xlp + entry_xlp addr p ≡ p.stats.total_xlp + xlp_weight a
    → IsBooked (record (save_addr addr a p) { stats = s })
save_addr-IsBooked addr a s p b u lp xlp =
    let (lp_sum, xlp_sum) = save_addr-sums addr a p in
    record {
      distinct = save_addr-IsDict addr a p b.distinct;
      linear = λ k. save_addr-Entry addr k a p b.distinct (b.linear k) u;
      lp_total = λ idle. omega (arith, b.lp_total (kept idle));
      xlp_total = λ idle. omega (arith, b.xlp_total (kept idle));
    }
  where
    kept : (save_addr addr a p).reset ≡ none → p.reset ≡ none
    kept idle = save_addr-reset addr a p ∙ idle

-- The books read nothing but the entries, the totals and the reset.
pub frame-IsBooked :
    (f : Fees) (y : List (ℕ × YieldPerToken)) (h : List (ℕ × LpAction)) (m : Dict LpHistorySummary)
    (t : Dict ℕ) (p : Pool)
    → IsBooked p
    → IsBooked (record p { fees = f; yields = y; history = h; summaries = m; transfers = t })
frame-IsBooked f y h m t p b = record {
  distinct = b.distinct;
  linear = b.linear;
  lp_total = b.lp_total;
  xlp_total = b.xlp_total;
}
