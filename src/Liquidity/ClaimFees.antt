-- ===== src/Liquidity/ClaimFees.antt =====
-- What the book keeping and the history of a claim of yield leave alone, in
-- contracts/market/src/state/liquidity.rs.
use levana_perps.Prelude.Dict.{
  may_load-save, may_load-remove, may_load, remove-IsDict, save-IsDict, IsDict,
}
use levana_perps.Cosmwasm.{Cosmwasm}
use levana_perps.Liquidity.Keeping.{
  update_accrued_yield, calculate_unstaked_lp, collect_from, perform_lp_book_keeping,
  collect_unstaked_lp, calculate_accrued_yield, accrue, is_unstaking, collect_amount,
}
use levana_perps.Liquidity.Stats.{lp_to_collateral_non_zero}
use levana_perps.Liquidity.Storage.{
  or_new, latest_yield, add_claim_history, load_addr, collateral_to_usd, add_summary_yield,
  add_action, save_addr, load_addr_default,
}
use levana_perps.Number.Unsigned.{checked_add}
use levana_perps.Prelude.{
  ltb, if◌then◌else◌, not_found, context-eq-ok, arith, unwrap_or, Bool-cases, inl, inr, ap, sym,
  subst, Ensures-ok, ok, ◌==◌, leb, Ensures-map, ensure, Ensures-bind, Ensures-if, Ensures, failed,
  Ensures-then, ℕ, ◌≡◌, refl, ◌∙◌, Bool, Option, none, some,
}
use levana_perps.Liquidity.State.{
  new_addr_stats, is_empty, Env, Pool, LpActionKind, AddrStats, UnstakingXlp,
}

-- The entry of a provider, which is empty where it is missing.
abbrev pub entry_of : ℕ → Pool → AddrStats
entry_of addr p = unwrap_or (may_load addr p.by_addr) (new_addr_stats 0)

abbrev pub SameRewards : AddrStats → AddrStats → Type 0
SameRewards a b = (a.crank_rewards ≡ b.crank_rewards) × (a.referrer_rewards ≡ b.referrer_rewards)

abbrev pub SameYields : AddrStats → AddrStats → Type 0
SameYields a b =
    (a.lp_accrued_yield ≡ b.lp_accrued_yield)
    × (a.xlp_accrued_yield ≡ b.xlp_accrued_yield)
    × SameRewards a b

-- A step that touches no balance of the fees, sends nothing, and keeps the entries distinct and the
-- rewards of the provider.
abbrev pub KeepsFees : ℕ → Pool → Pool → Type 0
KeepsFees addr p q =
    (q.fees ≡ p.fees)
    × (q.transfers ≡ p.transfers)
    × (IsDict p.by_addr → IsDict q.by_addr × SameRewards (entry_of addr q) (entry_of addr p))

-- A step that only writes the history.
abbrev pub KeepsRest : Pool → Pool → Type 0
KeepsRest p q = (q.fees ≡ p.fees) × (q.transfers ≡ p.transfers) × (q.by_addr ≡ p.by_addr)

KeepsFees-same : (addr : ℕ) (p : Pool) → KeepsFees addr p p
KeepsFees-same addr p = (refl, refl, λ d. (d, (refl, refl)))

KeepsFees-then :
    (addr : ℕ) (p q r : Pool) → KeepsFees addr p q → KeepsFees addr q r → KeepsFees addr p r
KeepsFees-then addr p q r (fees, transfers, entries) (fees1, transfers1, entries1) = (
  fees1 ∙ fees,
  transfers1 ∙ transfers,
  λ d.
      let (distinct, (crank, referrer)) = entries d in
      let (distinct1, (crank1, referrer1)) = entries1 distinct in
      (distinct1, (crank1 ∙ crank, referrer1 ∙ referrer)),
)

KeepsRest-KeepsFees : (addr : ℕ) (p q : Pool) → KeepsRest p q → KeepsFees addr p q
KeepsRest-KeepsFees addr p q (fees, transfers, entries) = (
  fees,
  transfers,
  λ d. (
    subst IsDict (sym entries) d,
    (
      ap (λ m. (unwrap_or (may_load addr m) (new_addr_stats 0)).crank_rewards) entries,
      ap (λ m. (unwrap_or (may_load addr m) (new_addr_stats 0)).referrer_rewards) entries,
    ),
  ),
)

-- An entry that is written is read again, where one that is removed has no yields.
pub save_addr-SameYields :
    (addr : ℕ) (a : AddrStats) (p : Pool)
    → IsDict p.by_addr
    → IsDict (save_addr addr a p).by_addr × SameYields (entry_of addr (save_addr addr a p)) a
unfolding save_addr
save_addr-SameYields addr a p d = elim (Bool-cases (is_empty a)) [
  | inl gone ↦
      rw (gone, may_load-remove addr addr p.by_addr d)
        (remove-IsDict addr p.by_addr d, ground (arith, gone))
  | inr kept ↦
      rw (kept, may_load-save addr addr a p.by_addr) (save-IsDict addr a p.by_addr d, ground arith)
]

save_addr-KeepsFees :
    (addr : ℕ) (a b : AddrStats) (p : Pool)
    → SameYields a (entry_of addr p)
    → SameRewards b a
    → KeepsFees addr p (save_addr addr b p)
unfolding save_addr
save_addr-KeepsFees addr a b p (_, _, (crank, referrer)) (crank1, referrer1) = (
  refl,
  refl,
  λ d.
      let (distinct, (_, _, (crank2, referrer2))) = save_addr-SameYields addr b p d in
      (distinct, (crank2 ∙ crank1 ∙ crank, referrer2 ∙ referrer1 ∙ referrer)),
)

pub load_addr-SameYields :
    (addr : ℕ) (p : Pool) {a : AddrStats} → load_addr addr p ≡ ok a → SameYields a (entry_of addr p)
unfolding load_addr
load_addr-SameYields addr p h =
    rw (context-eq-ok (may_load addr p.by_addr) not_found h) (refl, refl, (refl, refl))

or_new-SameYields :
    (o : Option AddrStats) (p : Pool)
    → Ensures (λ a. SameYields a (unwrap_or o (new_addr_stats 0))) (or_new o p)
unfolding or_new
or_new-SameYields (some a) p = (refl, refl, (refl, refl))
or_new-SameYields none p =
    Ensures-then _ (latest_yield p) (λ entry. ok (new_addr_stats entry.0))
      λ entry _. (refl, refl, (refl, refl))

load_addr_default-SameYields :
    (addr : ℕ) (p : Pool) {a : AddrStats}
    → load_addr_default addr p ≡ ok a
    → SameYields a (entry_of addr p)
unfolding load_addr_default
load_addr_default-SameYields addr p h =
    Ensures-ok _ (or_new (may_load addr p.by_addr) p)
      (or_new-SameYields (may_load addr p.by_addr) p) h

module _ ⦃c : Cosmwasm⦄ where
  pub add_action-KeepsRest :
      (e : Env) (addr : ℕ) (kind : LpActionKind) (tokens : Option ℕ) (collateral : ℕ) (p : Pool)
      → Ensures (KeepsRest p) (add_action e addr kind tokens collateral p)
  unfolding add_action
  add_action-KeepsRest e addr kind tokens collateral p =
      Ensures-then (KeepsRest p) (collateral_to_usd e collateral) _ λ worth _. (refl, refl, refl)

  accrue-KeepsFees :
      (addr : ℕ) (a : AddrStats) (p : Pool) (accrued : Option (ℕ × ℕ × ℕ))
      → SameYields a (entry_of addr p)
      → Ensures (KeepsFees addr p) (accrue addr a p accrued)
  unfolding accrue
  accrue-KeepsFees addr a p none same = KeepsFees-same addr p
  accrue-KeepsFees addr a p (some (index, lp, xlp)) same =
      let Q = KeepsFees addr p in
      Ensures-then Q (checked_add a.lp_accrued_yield lp) _ λ lp_total _.
        Ensures-then Q (checked_add a.xlp_accrued_yield xlp) _ λ xlp_total _.
          let b = record a {
            last_accrue_key = index;
            lp_accrued_yield = lp_total;
            xlp_accrued_yield = xlp_total;
          } in
          save_addr-KeepsFees addr a b p same (refl, refl)

  update_accrued_yield-KeepsFees :
      (addr : ℕ) (p : Pool) → Ensures (KeepsFees addr p) (update_accrued_yield addr p)
  unfolding update_accrued_yield
  update_accrued_yield-KeepsFees addr p =
      Ensures-then (KeepsFees addr p) (load_addr_default addr p) _ λ a found.
        Ensures-then (KeepsFees addr p) (calculate_accrued_yield a p) _
          λ accrued _. accrue-KeepsFees addr a p accrued (load_addr_default-SameYields addr p found)

  collect_amount-KeepsFees :
      (e : Env) (addr : ℕ) (a : AddrStats) (u : UnstakingXlp) (amount : ℕ) (p : Pool)
      → SameYields a (entry_of addr p)
      → Ensures (KeepsFees addr p) (collect_amount e addr a u amount p)
  unfolding collect_amount
  collect_amount-KeepsFees e addr a u amount p same =
      let Q = KeepsFees addr p in
      Ensures-then Q (checked_add u.collected amount) _ λ collected _.
        Ensures-then Q (ensure (leb collected u.xlp_amount) failed) _ λ _ _.
          Ensures-then Q (checked_add a.lp amount) _ λ lp _.
            let next = record u { collected = collected; last_collected = e.now } in
            let left : Option UnstakingXlp =
              if ltb collected u.xlp_amount then some next else none in
            let b = record a { lp = lp; unstaking = left } in
            let p1 = save_addr addr b p in
            Ensures-then Q (lp_to_collateral_non_zero p1.stats amount) _ λ collateral _.
              Ensures-map (KeepsRest p1) Q (add_action e addr _ (some amount) collateral p1)
                (add_action-KeepsRest e addr _ (some amount) collateral p1)
                λ q rest.
                  KeepsFees-then addr p p1 q (save_addr-KeepsFees addr a b p same (refl, refl))
                    (KeepsRest-KeepsFees addr p1 q rest)

  collect_from-KeepsFees :
      (e : Env) (addr : ℕ) (a : AddrStats) (o : Option UnstakingXlp) (p : Pool)
      → SameYields a (entry_of addr p)
      → Ensures (λ r. KeepsFees addr p r.1) (collect_from e addr a o p)
  unfolding collect_from
  collect_from-KeepsFees e addr a none p same = tt
  collect_from-KeepsFees e addr a (some u) p same =
      let Q : Bool × Pool → Type 0 = λ r. KeepsFees addr p r.1 in
      Ensures-then Q (calculate_unstaked_lp e u) _ λ amount _.
        Ensures-if Q (amount == 0) _ _ (λ _. KeepsFees-same addr p)
          λ _.
            Ensures-bind (KeepsFees addr p) Q (collect_amount e addr a u amount p) _
              (collect_amount-KeepsFees e addr a u amount p same) λ q kept. kept

  pub perform_lp_book_keeping-KeepsFees :
      (e : Env) (addr : ℕ) (p : Pool)
      → Ensures (KeepsFees addr p) (perform_lp_book_keeping e addr p)
  unfolding perform_lp_book_keeping collect_unstaked_lp
  perform_lp_book_keeping-KeepsFees e addr p =
      let Q : Bool × Pool → Type 0 = λ r. KeepsFees addr p r.1 in
      Ensures-bind (KeepsFees addr p) (KeepsFees addr p) (update_accrued_yield addr p) _
        (update_accrued_yield-KeepsFees addr p)
        λ p1 first.
          Ensures-bind Q (KeepsFees addr p) (collect_unstaked_lp e addr p1) _
            (Ensures-if Q (is_unstaking addr p1) _ _
              (λ _.
                Ensures-bind (KeepsFees addr p1) Q (update_accrued_yield addr p1) _
                  (update_accrued_yield-KeepsFees addr p1)
                  λ p2 second. Ensures-then Q (load_addr addr p2) _ λ a found.
                    Ensures-map _ Q (collect_from e addr a a.unstaking p2)
                      (collect_from-KeepsFees e addr a a.unstaking p2
                        (load_addr-SameYields addr p2 found))
                      λ r third.
                        KeepsFees-then addr p p1 r.1 first
                          (KeepsFees-then addr p1 p2 r.1 second third))
              λ _. first)
            λ r same. same

  pub add_claim_history-KeepsRest :
      (e : Env) (addr amount : ℕ) (p : Pool)
      → Ensures (KeepsRest p) (add_claim_history e addr amount p)
  unfolding add_claim_history add_summary_yield
  add_claim_history-KeepsRest e addr amount p =
      Ensures-bind (KeepsRest p) (KeepsRest p)
        (add_action e addr LpActionKind.claim_yield none amount p) _
        (add_action-KeepsRest e addr LpActionKind.claim_yield none amount p)
        λ p1 same. Ensures-then (KeepsRest p) (collateral_to_usd e amount) _ λ worth _.
          Ensures-then (KeepsRest p) (checked_add _ amount) _
            λ total _. Ensures-then (KeepsRest p) (checked_add _ worth) _ λ total_usd _. same
