-- ===== src/Liquidity/ResetBooks.antt =====
-- The reset of the balances in contracts/market/src/state/liquidity/stats.rs: what each crank clears,
-- and that the reset ends.
use levana_perps.Cosmwasm.{Cosmwasm}
use levana_perps.Liquidity.Resetting.{reset_entry, as_bound, is_after}
use levana_perps.Liquidity.Keeping.{calculate_accrued_yield, update_accrued_yield, accrue}
use levana_perps.Liquidity.State.{Pool, AddrStats, is_empty, ResetLpStatus, last_saw}
use levana_perps.Liquidity.Keys.{remaining-remove, remaining-save, remaining}
use levana_perps.Liquidity.Storage.{latest_yield, save_addr, load_addr_default, load_addr}
use levana_perps.Number.Unsigned.{checked_add}
use levana_perps.Prelude.{
  ◌==◌, Bool-cases, Ensures-then, Ensures, Ensures-bind, ℕ, suc, ◌≡◌, refl, ◌∙◌, ◌≢◌, inl, inr,
  Bool, true, not, Option, none, some, arith,
}
use levana_perps.Prelude.Dict.{
  may_load-save, may_load-remove, remove-IsDict, IsDict, save-IsDict, may_load,
}

-- Which keys the reset has passed.
abbrev pub is_passed : Option ResetLpStatus → ℕ → Bool
is_passed none k = true
is_passed (some s) k = not (is_after (as_bound s) k)

-- An entry without tokens.
abbrev pub IsClear : Option AddrStats → Type 0
IsClear none = Unit {0}
IsClear (some a) = (a.lp ≡ 0) × (a.xlp ≡ 0) × (a.unstaking ≡ none)

-- How many cranks a reset still needs.
abbrev pub cranks_left : Pool → ℕ
cranks_left p = elim p.reset [ none ↦ 0 | some s ↦ suc (remaining (as_bound s) p.by_addr) ]

-- The totals are 0, and the passed entries have no tokens.
pub record IsClearing (p : Pool) : Type 0 where
  pub distinct : IsDict p.by_addr
  pub no_lp : p.stats.total_lp ≡ 0
  pub no_xlp : p.stats.total_xlp ≡ 0
  pub cleared : (k : ℕ) → is_passed p.reset k ≡ true → IsClear (may_load k p.by_addr)

-- Only the entry of one provider changes.
pub record IsFrame (addr : ℕ) (p q : Pool) : Type 0 where
  pub distinct : IsDict q.by_addr
  pub others : (k : ℕ) → k ≢ addr → may_load k q.by_addr ≡ may_load k p.by_addr
  pub counted : remaining (some addr) q.by_addr ≡ remaining (some addr) p.by_addr
  pub same_stats : q.stats ≡ p.stats

save_addr-IsFrame :
    (addr : ℕ) (a : AddrStats) (p : Pool) → IsDict p.by_addr → IsFrame addr p (save_addr addr a p)
unfolding save_addr
save_addr-IsFrame addr a p d = elim (Bool-cases (is_empty a)) [
  | inl empty ↦ record {
    distinct = rw empty (remove-IsDict addr p.by_addr d);
    others = λ k other. rw empty (ground (arith, may_load-remove addr k p.by_addr d, other));
    counted = rw empty (remaining-remove addr p.by_addr);
    same_stats = refl;
  }
  | inr full ↦ record {
    distinct = rw full (save-IsDict addr a p.by_addr d);
    others = λ k other. rw full (ground (arith, may_load-save k addr a p.by_addr, other));
    counted = rw full (remaining-save addr a p.by_addr);
    same_stats = refl;
  }
]

-- A cleared entry is written without tokens, or removed.
save_addr-IsClear :
    (addr : ℕ) (a : AddrStats) (p : Pool)
    → IsDict p.by_addr
    → IsClear (some a)
    → IsClear (may_load addr (save_addr addr a p).by_addr)
unfolding save_addr
save_addr-IsClear addr a p d clear =
    let here : addr == addr ≡ true = ground arith in
    elim (Bool-cases (is_empty a)) [
      | inl empty ↦ rw (empty, may_load-remove addr addr p.by_addr d, here) tt
      | inr full ↦ rw (full, may_load-save addr addr a p.by_addr, here) clear
    ]

refl-IsFrame : (addr : ℕ) (p : Pool) → IsDict p.by_addr → IsFrame addr p p
refl-IsFrame addr p d = record {
  distinct = d;
  others = λ k other. refl;
  counted = refl;
  same_stats = refl;
}

trans-IsFrame : (addr : ℕ) (p q r : Pool) → IsFrame addr p q → IsFrame addr q r → IsFrame addr p r
trans-IsFrame addr p q r f g = record {
  distinct = g.distinct;
  others = λ k other. g.others k other ∙ f.others k other;
  counted = g.counted ∙ f.counted;
  same_stats = g.same_stats ∙ f.same_stats;
}

module _ ⦃c : Cosmwasm⦄ where
  accrue-IsFrame :
      (addr : ℕ) (a : AddrStats) (p : Pool) (accrued : Option (ℕ × ℕ × ℕ))
      → IsDict p.by_addr
      → Ensures (IsFrame addr p) (accrue addr a p accrued)
  unfolding accrue
  accrue-IsFrame addr a p none d = refl-IsFrame addr p d
  accrue-IsFrame addr a p (some (index, lp, xlp)) d =
      Ensures-then (IsFrame addr p) (checked_add a.lp_accrued_yield lp) _ λ lp_total _.
        Ensures-then (IsFrame addr p) (checked_add a.xlp_accrued_yield xlp) _ λ xlp_total _.
          save_addr-IsFrame addr
            (record a {
              last_accrue_key = index;
              lp_accrued_yield = lp_total;
              xlp_accrued_yield = xlp_total;
            })
            p d

  update_accrued_yield-IsFrame :
      (addr : ℕ) (p : Pool)
      → IsDict p.by_addr
      → Ensures (IsFrame addr p) (update_accrued_yield addr p)
  unfolding update_accrued_yield
  update_accrued_yield-IsFrame addr p d =
      Ensures-then (IsFrame addr p) (load_addr_default addr p) _ λ a _.
        Ensures-then (IsFrame addr p) (calculate_accrued_yield a p) _
          λ accrued _. accrue-IsFrame addr a p accrued d

  -- The pool after an entry is reset, less the mark that it was.
  pub record IsReset (addr : ℕ) (p q : Pool) : Type 0 where
    pub frame : IsFrame addr p q
    pub clear : IsClear (may_load addr q.by_addr)
    pub mark : q.reset ≡ some (last_saw addr)

  pub reset_entry-IsReset :
      (addr : ℕ) (p : Pool) → IsDict p.by_addr → Ensures (IsReset addr p) (reset_entry addr p)
  unfolding reset_entry
  reset_entry-IsReset addr p d =
      let Q = IsReset addr p in
      Ensures-bind (IsFrame addr p) Q (update_accrued_yield addr p) _
        (update_accrued_yield-IsFrame addr p d)
        λ p1 f. Ensures-then Q (load_addr addr p1) _ λ a _.
          Ensures-then Q (latest_yield p1) _ λ entry _.
            let cleared = record a {
              lp = 0;
              xlp = 0;
              last_accrue_key = entry.0;
              unstaking = none;
              cooldown_ends = none;
            } in
            let g = save_addr-IsFrame addr cleared p1 f.distinct in
            record {
              frame =
                  marked addr p (save_addr addr cleared p1)
                    (trans-IsFrame addr p p1 (save_addr addr cleared p1) f g);
              clear = save_addr-IsClear addr cleared p1 f.distinct (refl, refl, refl);
              mark = refl;
            }
    where
      marked :
          (addr : ℕ) (p q : Pool)
          → IsFrame addr p q
          → IsFrame addr p (record q { reset = some (last_saw addr) })
      marked addr p q f = record {
        distinct = f.distinct;
        others = f.others;
        counted = f.counted;
        same_stats = f.same_stats;
      }
