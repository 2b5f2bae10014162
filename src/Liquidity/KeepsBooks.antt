-- ===== src/Liquidity/KeepsBooks.antt =====
-- The books of the pool under the book keeping of a provider, in contracts/market/src/state/liquidity.rs.
use levana_perps.Liquidity.Stats.{lp_to_collateral_non_zero}
use levana_perps.Liquidity.Linear.{collected_at, unstaked_share}
use levana_perps.Number.Exact.{checked_add_ok}
use levana_perps.Number.Unsigned.{checked_add}
use levana_perps.Cosmwasm.{IsDocumented, Cosmwasm}
use levana_perps.Liquidity.Keeping.{
  collect_from, collect_unstaked_lp, pending, perform_lp_book_keeping, is_unstaking, collect_amount,
  accrue, calculate_unstaked_lp, update_accrued_yield, calculate_accrued_yield,
}
use levana_perps.Liquidity.Books.{
  IsLinear, frame-IsBooked, save_addr-IsBooked, lp_weight, Entry, IsBooked, IsUnstaking, xlp_weight,
}
use levana_perps.Liquidity.State.{
  collect_lp, LpActionKind, UnstakingXlp, Env, new_addr_stats, Pool, LiquidityStats, AddrStats,
}
use levana_perps.Liquidity.Storage.{
  add_action, collateral_to_usd, or_new, latest_yield, save_addr, load_addr_default, load_addr,
}
use levana_perps.Prelude.Dict.{weight, may_load}
use levana_perps.Prelude.{
  ◌∙◌, Bool, Ensures-map, Ensures-if, Bool-cases, ◌==◌, ltb, if◌then◌else◌, ltb→lt, Ensures-bind,
  ◌+◌, ◌-◌, ◌≤◌, ◌<◌, subst, leb, failed, Ensures-ok, ensure, Ensures-then, context-eq-ok, refl,
  inl, inr, Result, not_found, Ensures, ok, ℕ, ◌≡◌, Option, none, some, arith,
}

abbrev pub Keeps : Result Pool → Type 0
Keeps r = Ensures IsBooked r

-- Kept books, and the totals as they were.
abbrev pub SameTotals : LiquidityStats → Pool → Type 0
SameTotals s p = IsBooked p × (p.stats ≡ s)

-- The entry that a call works on weighs what the stored one weighs.
abbrev pub Reads : Option AddrStats → AddrStats → Type 0
Reads o a =
    (weight lp_weight o ≡ lp_weight a)
    × (weight xlp_weight o ≡ xlp_weight a)
    × (Entry o → IsUnstaking a.unstaking)

abbrev pub Loaded : ℕ → Pool → AddrStats → Type 0
Loaded addr p a = Reads (may_load addr p.by_addr) a

pub load_addr_ok : (addr : ℕ) (p : Pool) {a : AddrStats} → load_addr addr p ≡ ok a → Loaded addr p a
unfolding load_addr
load_addr_ok addr p h =
    rw (context-eq-ok (may_load addr p.by_addr) not_found h) (refl, refl, λ u. u)

or_new-Reads : (o : Option AddrStats) (p : Pool) → Ensures (Reads o) (or_new o p)
unfolding or_new
or_new-Reads (some a) p = (refl, refl, λ u. u)
or_new-Reads none p =
    Ensures-then (Reads none) (latest_yield p) (λ entry. ok (new_addr_stats entry.0))
      λ entry _. (omega arith, refl, λ u. tt)

pub load_addr_default_ok :
    (addr : ℕ) (p : Pool) {a : AddrStats} → load_addr_default addr p ≡ ok a → Loaded addr p a
unfolding load_addr_default
load_addr_default_ok addr p h =
    Ensures-ok (Loaded addr p) (or_new (may_load addr p.by_addr) p) (or_new-Reads _ p) h

-- An entry is written whose tokens are those that were loaded.
pub same_entry :
    (addr : ℕ) (a b : AddrStats) (p : Pool)
    → IsBooked p
    → Loaded addr p a
    → lp_weight b ≡ lp_weight a
    → b.xlp ≡ a.xlp
    → IsUnstaking b.unstaking
    → SameTotals p.stats (save_addr addr b p)
unfolding save_addr
same_entry addr a b p k (lp, xlp, _) same_lp same_xlp u =
    (save_addr-IsBooked addr b p.stats p k u (omega arith) (omega arith), refl)

-- What is left of an unstaking after a collection.
abbrev left_of : ℕ → UnstakingXlp → Option UnstakingXlp
left_of collected next = if ltb collected next.xlp_amount then some next else none

left_linear :
    (u : UnstakingXlp) (n collected now : ℕ)
    → collected ≡ u.collected + n
    → (u.collected + n < u.xlp_amount → IsLinear (collected_at now n u))
    → IsUnstaking (left_of collected (record u { collected = collected; last_collected = now }))
left_linear u n collected now exact linear = elim (Bool-cases (ltb collected u.xlp_amount)) [
  | inl more ↦ rw (more, exact) (linear (omega (arith, ltb→lt _ _ more)))
  | inr all ↦ rw all tt
]

-- The amount moves from the unstaking to the LP.
moved_over :
    (lp n collected now : ℕ) (u : UnstakingXlp)
    → collected ≡ u.collected + n
    → u.collected + n ≤ u.xlp_amount
    → lp
        + n
        + pending (left_of collected (record u { collected = collected; last_collected = now }))
      ≡ lp + (u.xlp_amount - u.collected)
moved_over lp n collected now u exact bound = ground arith

entry-IsLinear :
    (a : AddrStats) (u : UnstakingXlp) → a.unstaking ≡ some u → IsUnstaking a.unstaking → IsLinear u
entry-IsLinear a u e k = subst IsUnstaking e k

module _ ⦃c : Cosmwasm⦄ where
  -- A line in the history touches no book.
  pub add_action-SameTotals :
      (e : Env) (addr : ℕ) (kind : LpActionKind) (tokens : Option ℕ) (collateral : ℕ)
      (s : LiquidityStats) (p : Pool)
      → SameTotals s p
      → Ensures (SameTotals s) (add_action e addr kind tokens collateral p)
  unfolding add_action
  add_action-SameTotals e addr kind tokens collateral s p (k, same) =
      Ensures-then (SameTotals s) (collateral_to_usd e collateral) _
        λ worth _. (frame-IsBooked p.fees p.yields _ p.summaries p.transfers p k, same)

  pub add_action-IsBooked :
      (e : Env) (addr : ℕ) (kind : LpActionKind) (tokens : Option ℕ) (collateral : ℕ) (p : Pool)
      → IsBooked p
      → Ensures IsBooked (add_action e addr kind tokens collateral p)
  add_action-IsBooked e addr kind tokens collateral p k =
      Ensures-map (SameTotals p.stats) IsBooked (add_action e addr kind tokens collateral p)
        (add_action-SameTotals e addr kind tokens collateral p.stats p (k, refl)) λ q kept. kept.0

module _ ⦃c : Cosmwasm⦄ (doc : IsDocumented c) where
  accrue-SameTotals :
      (addr : ℕ) (a : AddrStats) (p : Pool) (accrued : Option (ℕ × ℕ × ℕ))
      → IsBooked p
      → Loaded addr p a
      → Ensures (SameTotals p.stats) (accrue addr a p accrued)
  unfolding accrue
  accrue-SameTotals addr a p none k l = (k, refl)
  accrue-SameTotals addr a p (some (index, lp, xlp)) k l =
      Ensures-then (SameTotals p.stats) (checked_add a.lp_accrued_yield lp) _ λ lp_total _.
        Ensures-then (SameTotals p.stats) (checked_add a.xlp_accrued_yield xlp) _
          λ xlp_total _. same_entry addr a _ p k l refl refl (l.2 (k.linear addr))

  pub update_accrued_yield-SameTotals :
      (addr : ℕ) (p : Pool)
      → IsBooked p
      → Ensures (SameTotals p.stats) (update_accrued_yield addr p)
  unfolding update_accrued_yield
  update_accrued_yield-SameTotals addr p k =
      Ensures-then (SameTotals p.stats) (load_addr_default addr p) _ λ a e.
        Ensures-then (SameTotals p.stats) (calculate_accrued_yield a p) _
          λ accrued _. accrue-SameTotals addr a p accrued k (load_addr_default_ok addr p e)

  collect_amount-SameTotals :
      (e : Env) (addr : ℕ) (a : AddrStats) (u : UnstakingXlp) (n : ℕ) (p : Pool)
      → IsBooked p
      → Loaded addr p a
      → a.unstaking ≡ some u
      → calculate_unstaked_lp e u ≡ ok n
      → Ensures (SameTotals p.stats) (collect_amount e addr a u n p)
  unfolding collect_amount
  collect_amount-SameTotals e addr a u n p k l is_open r =
      Ensures-then (SameTotals p.stats) (checked_add u.collected n) _ λ collected sum.
        Ensures-then (SameTotals p.stats) (ensure (leb collected u.xlp_amount) failed) _ λ _ within.
          Ensures-then (SameTotals p.stats) (checked_add a.lp n) _ λ lp added.
            let next = collected_at e.now n u in
            let exact : collected ≡ u.collected + n = checked_add_ok doc u.collected n sum in
            let (bound, linear) =
              unstaked_share doc e u (entry-IsLinear a u is_open (l.2 (k.linear addr))) r in
            let total : lp ≡ a.lp + n = checked_add_ok doc a.lp n added in
            let left =
              left_of collected (record u { collected = collected; last_collected = e.now }) in
            let same =
              same_entry addr a (record a { lp = lp; unstaking = left }) p k l
                (rw (total, is_open) (moved_over a.lp n collected e.now u exact bound)) refl
                (left_linear u n collected e.now exact linear) in
            let p1 = save_addr addr (record a { lp = lp; unstaking = left }) p in
            Ensures-then (SameTotals p.stats) (lp_to_collateral_non_zero p1.stats n) _
              λ collateral _.
                add_action-SameTotals e addr collect_lp (some n) collateral p.stats p1 same

  abbrev Kept : LiquidityStats → Bool × Pool → Type 0
  Kept s r = SameTotals s r.1

  collect_from-SameTotals :
      (e : Env) (addr : ℕ) (a : AddrStats) (o : Option UnstakingXlp) (p : Pool)
      → IsBooked p
      → Loaded addr p a
      → a.unstaking ≡ o
      → Ensures (Kept p.stats) (collect_from e addr a o p)
  unfolding collect_from
  collect_from-SameTotals e addr a none p k l o = tt
  collect_from-SameTotals e addr a (some u) p k l o =
      Ensures-then (Kept p.stats) (calculate_unstaked_lp e u) _ λ n r.
        Ensures-if (Kept p.stats) (n == 0) _ _ (λ _. (k, refl))
          λ _.
            Ensures-bind (SameTotals p.stats) (Kept p.stats) (collect_amount e addr a u n p) _
              (collect_amount-SameTotals e addr a u n p k l o r) λ p1 k1. k1

  pub collect_unstaked_lp-SameTotals :
      (e : Env) (addr : ℕ) (p : Pool)
      → IsBooked p
      → Ensures (Kept p.stats) (collect_unstaked_lp e addr p)
  unfolding collect_unstaked_lp
  collect_unstaked_lp-SameTotals e addr p k =
      Ensures-if (Kept p.stats) (is_unstaking addr p) _ _
        (λ _.
          Ensures-bind (SameTotals p.stats) (Kept p.stats) (update_accrued_yield addr p) _
            (update_accrued_yield-SameTotals addr p k)
            λ p1 k1. Ensures-then (Kept p.stats) (load_addr addr p1) _ λ a found. rw (← k1.1) (
              collect_from-SameTotals e addr a a.unstaking p1 k1.0 (load_addr_ok addr p1 found)
                refl))
        λ _. (k, refl)

  -- In a pool whose books are in order, the book keeping of a provider, if it succeeds, keeps them
  -- so and leaves the totals as they are: what it moves from an unstaking to the LP of its owner was
  -- counted as LP already.
  pub perform_lp_book_keeping-SameTotals :
      (e : Env) (addr : ℕ) (p : Pool)
      → IsBooked p
      → Ensures (SameTotals p.stats) (perform_lp_book_keeping e addr p)
  unfolding perform_lp_book_keeping
  perform_lp_book_keeping-SameTotals e addr p k =
      Ensures-bind (SameTotals p.stats) (SameTotals p.stats) (update_accrued_yield addr p) _
        (update_accrued_yield-SameTotals addr p k)
        λ p1 k1.
          Ensures-bind (Kept p1.stats) (SameTotals p.stats) (collect_unstaked_lp e addr p1) _
            (collect_unstaked_lp-SameTotals e addr p1 k1.0) λ r k2. (k2.0, k2.1 ∙ k1.1)
