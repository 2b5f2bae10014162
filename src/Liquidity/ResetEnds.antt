-- ===== src/Liquidity/ResetEnds.antt =====
-- The end of a reset of the balances, in contracts/market/src/state/liquidity/stats.rs.
use levana_perps.Liquidity.Books.{xlp_weight, Entry, IsBooked, lp_weight}
use levana_perps.Cosmwasm.{Cosmwasm}
use levana_perps.Liquidity.Resetting.{
  reset_next, next_key, as_bound, crank_reset_lp_balances, crank_resets, is_after, reset_entry,
}
use levana_perps.Liquidity.State.{begin, ResetLpStatus, Pool, AddrStats, last_saw}
use levana_perps.Liquidity.Run.{should_reset_lp_balances}
use levana_perps.Liquidity.ResetBooks.{
  IsClear, IsClearing, IsReset, reset_entry-IsReset, is_passed, cranks_left,
}
use levana_perps.Liquidity.Keys.{
  remaining-size, next_key-none, first-least, remaining-next, first-held, first-after,
}
use levana_perps.Prelude.{
  Ensures-bind, Ensures-if, ok, Ensures-ok, ◌+◌, [], ◌∷◌, not_found, Ensures-then, context,
  context-eq-ok, Option, Option-cases, ◌==◌, Bool-cases, Ensures-map, Ensures, ℕ, zero, suc, ◌≤◌,
  ◌<◌, ◌≡◌, refl, ◌≢◌, inl, inr, true, false, none, some, arith,
}
use levana_perps.Prelude.Dict.{size, sum, IsDict, may_load, Dict}

-- The keys after the bound that an entry passes are that entry's and those of no entry.
passed-IsClear :
    (s : ResetLpStatus) (addr : ℕ) (d d1 : Dict AddrStats) (k : ℕ)
    → next_key (as_bound s) d ≡ some addr
    → IsClear (may_load addr d1)
    → ((j : ℕ) → j ≢ addr → may_load j d1 ≡ may_load j d)
    → ((j : ℕ) → is_passed (some s) j ≡ true → IsClear (may_load j d))
    → is_passed (some (last_saw addr)) k ≡ true
    → IsClear (may_load k d1)
passed-IsClear s addr d d1 k first clear others before passed = elim (Bool-cases (k == addr)) [
  | inl same ↦ rw (here same) clear
  | inr other ↦ rw (others k (apart other)) (elim (Bool-cases (is_after (as_bound s) k)) [
    | inl after ↦ rw (first-least (as_bound s) d k first after (ground (arith, passed, other))) tt
    | inr seen ↦ before k (rw seen refl)
  ])
]
  where
    here : k == addr ≡ true → k ≡ addr
    here same = ground (arith, same)

    apart : k == addr ≡ false → k ≢ addr
    apart other = ground (arith, other)

abbrev Goes : Pool → Pool → Type 0
Goes p q = IsClearing q × (cranks_left q < cranks_left p)

entry-Goes :
    ⦃c : Cosmwasm⦄ (s : ResetLpStatus) (addr : ℕ) (p q : Pool)
    → p.reset ≡ some s
    → next_key (as_bound s) p.by_addr ≡ some addr
    → IsClearing p
    → IsReset addr p q
    → Goes p q
entry-Goes s addr p q now first k r =
    let after = first-after (as_bound s) p.by_addr first in
    let fewer =
      remaining-next (as_bound s) addr p.by_addr after (first-held (as_bound s) p.by_addr first) in
    (
      record {
        distinct = r.frame.distinct;
        no_lp = rw (r.frame.same_stats) k.no_lp;
        no_xlp = rw (r.frame.same_stats) k.no_xlp;
        cleared = λ j passed.
            passed-IsClear s addr p.by_addr q.by_addr j first r.clear r.frame.others
              (λ i seen. k.cleared i (rw now seen)) (rw r.mark at passed);
      },
      rw (now, r.mark) (omega (arith, fewer, r.frame.counted)),
    )

none_left : (p : Pool) → cranks_left p ≤ 0 → p.reset ≡ none
none_left p done = elim (Option-cases p.reset) [
  | inl idle ↦ idle
  | inr (s, now) ↦ absurd (ground (arith, rw now at done))
]

idle_reset : (p : Pool) → should_reset_lp_balances p ≡ false → p.reset ≡ none
unfolding should_reset_lp_balances
idle_reset p idle = elim (Option-cases p.reset) [
  | inl none_due ↦ none_due
  | inr (s, now) ↦ cc (rw now at idle)
]

clear_weight : (a : AddrStats) → IsClear (some a) → (lp_weight a ≡ 0) × (xlp_weight a ≡ 0)
clear_weight a h = ground (arith, h)

later-IsClear :
    (key : ℕ) (a : AddrStats) (d : Dict AddrStats)
    → may_load key d ≡ none
    → ((k : ℕ) → IsClear (may_load k ((key, a) ∷ d)))
    → (k : ℕ) → IsClear (may_load k d)
later-IsClear key a d new clear k = elim (Bool-cases (k == key)) [
  | inl same ↦ let equal : k ≡ key = ground (arith, same) in rw (equal, new) tt
  | inr other ↦ rw other at (clear k)
]

clear_sums :
    (d : Dict AddrStats)
    → IsDict d
    → ((k : ℕ) → IsClear (may_load k d))
    → (sum lp_weight d ≡ 0) × (sum xlp_weight d ≡ 0)
clear_sums [] distinct clear = (refl, refl)
clear_sums ((key, a) ∷ d) distinct clear =
    let here : key == key ≡ true = ground arith in
    let this : IsClear (some a) = rw here at (clear key) in
    let rest = clear_sums d distinct.1 (later-IsClear key a d distinct.0 clear) in
    (omega (arith, clear_weight a this, rest), omega (arith, clear_weight a this, rest))

cleared-IsBooked :
    (q : Pool) → IsClearing q → ((k : ℕ) → IsClear (may_load k q.by_addr)) → IsBooked q
cleared-IsBooked q k clear =
    let sums = clear_sums q.by_addr k.distinct clear in
    record {
      distinct = k.distinct;
      linear = λ addr. clear-Entry (may_load addr q.by_addr) (clear addr);
      lp_total = λ idle. omega (arith, k.no_lp, sums);
      xlp_total = λ idle. omega (arith, k.no_xlp, sums);
    }
  where
    clear-Entry : (o : Option AddrStats) → IsClear o → Entry o
    clear-Entry none clear = tt
    clear-Entry (some a) clear = rw (clear.2) tt

module _ ⦃c : Cosmwasm⦄ where
  finished-Goes :
      (s : ResetLpStatus) (p : Pool)
      → p.reset ≡ some s
      → next_key (as_bound s) p.by_addr ≡ none
      → IsClearing p
      → Goes p (record p { reset = none })
  finished-Goes s p now over k = (
    record {
      distinct = k.distinct;
      no_lp = k.no_lp;
      no_xlp = k.no_xlp;
      cleared = λ j _. elim (Bool-cases (is_after (as_bound s) j)) [
        | inl after ↦ rw (next_key-none (as_bound s) p.by_addr j over after) tt
        | inr seen ↦ k.cleared j (rw (now, seen) refl)
      ];
    },
    rw now (omega arith),
  )

  reset_next-Goes :
      (o : Option ℕ) (s : ResetLpStatus) (p : Pool)
      → p.reset ≡ some s
      → next_key (as_bound s) p.by_addr ≡ o
      → IsClearing p
      → Ensures (Goes p) (reset_next o p)
  unfolding reset_next
  reset_next-Goes none s p now over k = finished-Goes s p now over k
  reset_next-Goes (some addr) s p now first k =
      Ensures-map (IsReset addr p) (Goes p) (reset_entry addr p)
        (reset_entry-IsReset addr p k.distinct) λ q r. entry-Goes s addr p q now first k r

  -- Each crank clears an entry or ends the reset.
  crank_reset_lp_balances-Goes :
      (p : Pool) → IsClearing p → Ensures (Goes p) (crank_reset_lp_balances p)
  unfolding crank_reset_lp_balances
  crank_reset_lp_balances-Goes p k = Ensures-then (Goes p) (context p.reset not_found) _ λ s now.
      reset_next-Goes (next_key (as_bound s) p.by_addr) s p (context-eq-ok p.reset not_found now)
        refl k

  crank_resets_end :
      (n : ℕ) (p : Pool)
      → cranks_left p ≤ n
      → IsClearing p
      → Ensures (λ q. (q.reset ≡ none) × IsClearing q) (crank_resets n p)
  unfolding crank_resets
  crank_resets_end zero p done k = (none_left p done, k)
  crank_resets_end (suc n) p done k =
      let Q : Pool → Type 0 = λ q. (q.reset ≡ none) × IsClearing q in
      Ensures-if Q (should_reset_lp_balances p) _ _
        (λ _.
          Ensures-bind (Goes p) Q (crank_reset_lp_balances p) _ (crank_reset_lp_balances-Goes p k)
            λ q goes. crank_resets_end n q (omega (arith, goes.1, done)) goes.0)
        λ idle. (idle_reset p idle, k)

  -- After the pool has lost all collateral, as many cranks as there are providers and one more end
  -- the reset of the balances, where none of them fails: afterwards no provider has tokens, and the
  -- books are in order.
  pub crank_resets_lem :
      (p : Pool) {q : Pool}
      → IsDict p.by_addr
      → p.stats.total_lp ≡ 0
      → p.stats.total_xlp ≡ 0
      → p.reset ≡ some begin
      → crank_resets (size p.by_addr + 1) p ≡ ok q
      → (q.reset ≡ none) × ((k : ℕ) → IsClear (may_load k q.by_addr)) × IsBooked q
  crank_resets_lem p {q} d no_lp no_xlp now h =
      let start : IsClearing p = record {
        distinct = d;
        no_lp = no_lp;
        no_xlp = no_xlp;
        cleared = λ k passed. cc (rw now at passed);
      } in
      let enough : cranks_left p ≤ size p.by_addr + 1 =
        rw now (omega (arith, remaining-size none p.by_addr)) in
      let ended =
        Ensures-ok _ (crank_resets (size p.by_addr + 1) p)
          (crank_resets_end (size p.by_addr + 1) p enough start) h in
      let clear : (k : ℕ) → IsClear (may_load k q.by_addr) =
        λ k. ended.1.cleared k (rw ended.0 refl) in
      (ended.0, clear, cleared-IsBooked q ended.1 clear)
