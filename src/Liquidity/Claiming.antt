-- ===== src/Liquidity/Claiming.antt =====
-- The claim of a provider's yield: `liquidity_claim_yield` of contracts/market/src/state/liquidity.rs,
-- with `register_lp_claimed_yield` of contracts/market/src/state/fees.rs.
use levana_perps.Liquidity.StakingBooks.{non_zero_positive}
use levana_perps.Liquidity.Keeping.{perform_lp_book_keeping}
use levana_perps.Liquidity.Run.{run}
use levana_perps.Number.NonZero.{non_zero}
use levana_perps.Cosmwasm.{Cosmwasm, IsDocumented}
use levana_perps.Liquidity.State.{new_addr_stats, AddrStats, Env, Pool}
use levana_perps.Liquidity.Provider.{
  liquidity_claim_yield, register_lp_claimed_yield, total_yield, send_yield,
}
use levana_perps.Liquidity.ClaimFees.{
  load_addr-SameYields, save_addr-SameYields, KeepsFees, perform_lp_book_keeping-KeepsFees,
  KeepsRest, entry_of, add_claim_history-KeepsRest, SameYields,
}
use levana_perps.Liquidity.Storage.{
  save_addr, load_addr, transfer_total, add_claim_history, add_transfer,
}
use levana_perps.Number.Exact.{non_zero_ok, checked_sub_ok, checked_add_ok}
use levana_perps.Number.Unsigned.{checked_sub, checked_add}
use levana_perps.Prelude.{
  Option, none, some, no_yield_to_claim, context, sym, subst, if◌then◌else◌, unwrap_or, ok,
  Ensures-of, Result, Ensures, Ensures-map, Ensures-then, Ensures-bind, Ensures-ok, ℕ, ◌+◌, ◌<◌,
  ◌≡◌, refl, ap, ◌∙◌, ◌≢◌, Bool, true, false, arith,
}
use levana_perps.Prelude.Dict.{IsDict, sum, may_load, may_load-save}

-- What a call transfers to an account.
abbrev pub transferred : ℕ → Pool → ℕ
transferred addr p = unwrap_or (may_load addr p.transfers) 0

-- What a claim pays, by the yields of the provider after the book keeping.
abbrev pub Owed : Result Pool → ℕ → Pool → ℕ → Type 0
Owed book_keeping addr p claimed =
    (p1 : Pool) × (book_keeping ≡ ok p1)
    × (claimed
        ≡ (entry_of addr p1).lp_accrued_yield
          + (entry_of addr p1).xlp_accrued_yield
          + (entry_of addr p).crank_rewards
          + (entry_of addr p).referrer_rewards)

pub record IsClaimed (book_keeping : Result Pool) (addr : ℕ) (to_wallet : Bool) (p : Pool)
    (r : ℕ × Pool) : Type 0 where
  pub owed : Owed book_keeping addr p r.0
  pub pays_some : 0 < r.0
  pub from_wallets : r.1.fees.wallets + r.0 ≡ p.fees.wallets
  pub same_protocol : r.1.fees.protocol ≡ p.fees.protocol
  pub same_crank : r.1.fees.crank ≡ p.fees.crank
  pub same_referral : r.1.fees.referral ≡ p.fees.referral
  pub is_sent : transferred addr r.1 ≡ transferred addr p + (if to_wallet then r.0 else 0)
  pub no_other_is_sent : (b : ℕ) → b ≢ addr → transferred b r.1 ≡ transferred b p
  pub nothing_left : SameYields (entry_of addr r.1) (new_addr_stats 0)

-- What the sending of the yield does.
pub record Sends (to_wallet : Bool) (addr amount : ℕ) (p q : Pool) : Type 0 where
  pub same_fees : q.fees ≡ p.fees
  pub same_entries : q.by_addr ≡ p.by_addr
  pub adds : transferred addr q ≡ transferred addr p + (if to_wallet then amount else 0)
  pub keeps : (b : ℕ) → b ≢ addr → transferred b q ≡ transferred b p

Sends-then :
    (to_wallet : Bool) (addr amount : ℕ) (p q r : Pool)
    → Sends to_wallet addr amount p q
    → KeepsRest q r
    → Sends to_wallet addr amount p r
Sends-then to_wallet addr amount p q r s (fees, transfers, entries) = record {
  same_fees = fees ∙ s.same_fees;
  same_entries = entries ∙ s.same_entries;
  adds = ap (λ m. unwrap_or (may_load addr m) 0) transfers ∙ s.adds;
  keeps = λ b other. ap (λ m. unwrap_or (may_load b m) 0) transfers ∙ s.keeps b other;
}

-- What the yields of an entry add up to, with the rewards.
abbrev yields_of : AddrStats → ℕ
yields_of a = a.lp_accrued_yield + a.xlp_accrued_yield + a.crank_rewards + a.referrer_rewards

module _ ⦃c : Cosmwasm⦄ (doc : IsDocumented c) where
  total_ok :
      (o : Option ℕ) (amount : ℕ) {total : ℕ}
      → elim o [ none ↦ ok amount | some old ↦ checked_add old amount ] ≡ ok total
      → total ≡ unwrap_or o 0 + amount
  total_ok none amount h = ground arith
  total_ok (some old) amount h = checked_add_ok doc old amount h

  transfer_total_ok :
      (addr amount : ℕ) (p : Pool) {total : ℕ}
      → transfer_total addr amount p ≡ ok total
      → total ≡ transferred addr p + amount
  unfolding transfer_total
  transfer_total_ok addr amount p h = total_ok (may_load addr p.transfers) amount h

  add_transfer-Sends :
      (addr amount : ℕ) (p : Pool) → Ensures (Sends true addr amount p) (add_transfer addr amount p)
  unfolding add_transfer
  add_transfer-Sends addr amount p =
      Ensures-then (Sends true addr amount p) (transfer_total addr amount p) _ λ total h. record {
        same_fees = refl;
        same_entries = refl;
        adds =
            ground
              (arith, may_load-save addr addr total p.transfers, transfer_total_ok addr amount p h);
        keeps = λ b other. ground (arith, may_load-save b addr total p.transfers);
      }

  send_yield-Sends :
      (to_wallet : Bool) (e : Env) (addr amount : ℕ) (p : Pool)
      → Ensures (Sends to_wallet addr amount p) (send_yield to_wallet e addr amount p)
  unfolding send_yield
  send_yield-Sends false e addr amount p = record {
    same_fees = refl;
    same_entries = refl;
    adds = omega arith;
    keeps = λ b other. refl;
  }
  send_yield-Sends true e addr amount p =
      let Q = Sends true addr amount p in
      Ensures-bind Q Q (add_transfer addr amount p) _ (add_transfer-Sends addr amount p) λ p1 s.
        Ensures-map (KeepsRest p1) Q (add_claim_history e addr amount p1)
          (add_claim_history-KeepsRest e addr amount p1)
          λ q rest. Sends-then true addr amount p p1 q s rest

  total_yield_ok : (a : AddrStats) {total : ℕ} → total_yield a ≡ ok total → total ≡ yields_of a
  unfolding total_yield
  total_yield_ok a h =
      Ensures-ok (λ total. total ≡ yields_of a) (total_yield a)
        (Ensures-then _ (checked_add a.lp_accrued_yield a.xlp_accrued_yield) _ λ s1 h1.
          Ensures-then _ (checked_add s1 a.crank_rewards) _ λ s2 h2.
            Ensures-of _ (checked_add s2 a.referrer_rewards) λ s3 h3. omega (
              arith,
              checked_add_ok doc a.lp_accrued_yield a.xlp_accrued_yield h1,
              checked_add_ok doc s1 a.crank_rewards h2,
              checked_add_ok doc s2 a.referrer_rewards h3,
            ))
        h

  -- What is left of an entry after a claim.
  abbrev emptied : AddrStats → AddrStats
  emptied a = record a {
    lp_accrued_yield = 0;
    xlp_accrued_yield = 0;
    crank_rewards = 0;
    referrer_rewards = 0;
  }

  -- The pool after the yield is taken from an entry and from the wallets.
  abbrev Taken : ℕ → AddrStats → Pool → ℕ → Pool → Type 0
  Taken addr a p1 claimed p2 =
      (wallets : ℕ) × (wallets + claimed ≡ p1.fees.wallets)
      × (p2
          ≡ record (save_addr addr (emptied a) p1) { fees = record p1.fees { wallets = wallets } })

  register_lp_claimed_yield-Taken :
      (addr : ℕ) (a : AddrStats) (p1 : Pool) (claimed : ℕ)
      → Ensures
          (Taken addr a p1 claimed)
          (register_lp_claimed_yield claimed (save_addr addr (emptied a) p1))
  unfolding register_lp_claimed_yield save_addr
  register_lp_claimed_yield-Taken addr a p1 claimed =
      Ensures-then (Taken addr a p1 claimed) (checked_sub p1.fees.wallets claimed) _
        λ wallets less. (wallets, checked_sub_ok doc p1.fees.wallets claimed less, refl)

  -- The parts of a claim: the book keeping, the entry read, its yield taken from the wallets, and the
  -- yield sent.
  IsClaimed-all :
      (m : Result Pool) (addr : ℕ) (to_wallet : Bool) (p p1 p2 p3 : Pool) (a : AddrStats)
      (claimed : ℕ)
      → IsDict p.by_addr
      → m ≡ ok p1
      → KeepsFees addr p p1
      → SameYields a (entry_of addr p1)
      → claimed ≡ yields_of a
      → 0 < claimed
      → Taken addr a p1 claimed p2
      → Sends to_wallet addr claimed p2 p3
      → IsClaimed m addr to_wallet p (claimed, p3)
  unfolding save_addr
  IsClaimed-all m addr to_wallet p p1 p2 p3 a claimed d run kept same sum some_yield after sent =
      let (wallets, taken, writes) = after in
      let s = subst (λ x. Sends to_wallet addr claimed x p3) writes sent in
      let (fees, transfers, entries) = kept in
      let (distinct, (crank, referrer)) = entries d in
      let (lp, xlp, (crank1, referrer1)) = same in
      record {
        owed = (p1, run, omega (arith, sum, lp, xlp, crank, referrer, crank1, referrer1));
        pays_some = some_yield;
        from_wallets = ap (λ f. f.wallets + claimed) s.same_fees ∙ taken ∙ ap (λ f. f.wallets) fees;
        same_protocol = ap (λ f. f.protocol) s.same_fees ∙ ap (λ f. f.protocol) fees;
        same_crank = ap (λ f. f.crank) s.same_fees ∙ ap (λ f. f.crank) fees;
        same_referral = ap (λ f. f.referral) s.same_fees ∙ ap (λ f. f.referral) fees;
        is_sent =
            s.adds
            ∙ ap (λ t. unwrap_or (may_load addr t) 0 + (if to_wallet then claimed else 0))
                transfers;
        no_other_is_sent =
            λ b other. s.keeps b other ∙ ap (λ t. unwrap_or (may_load b t) 0) transfers;
        nothing_left =
            subst
              (λ d2.
                SameYields (unwrap_or (may_load addr d2) (new_addr_stats 0)) (new_addr_stats 0))
              (sym s.same_entries) (save_addr-SameYields addr (emptied a) p1 distinct).1;
      }

  -- A claim of yield that succeeds, where no provider has two entries, pays the accrued yields of the
  -- provider as the book keeping leaves them, with the crank rewards and the rewards for referrals
  -- that the provider had: this is more than 0, leaves the provider none of them, and is taken whole
  -- from the balance of the wallets, while those of the protocol, the cranks and the referrals stay.
  -- It is added to the transfers to the provider where it goes to the wallet; what is transferred to
  -- anyone else stays.
  pub liquidity_claim_yield_lem :
      (e : Env) (addr : ℕ) (to_wallet : Bool) (p : Pool) {r : ℕ × Pool}
      → IsDict p.by_addr
      → liquidity_claim_yield e addr to_wallet p ≡ ok r
      → IsClaimed (perform_lp_book_keeping e addr p) addr to_wallet p r
  unfolding liquidity_claim_yield
  liquidity_claim_yield_lem e addr to_wallet p d h =
      let m = perform_lp_book_keeping e addr p in
      let Q = IsClaimed m addr to_wallet p in
      Ensures-ok Q (liquidity_claim_yield e addr to_wallet p)
        (Ensures-then Q m _ λ p1 run. Ensures-then Q (load_addr addr p1) _ λ a found.
          Ensures-then Q (total_yield a) _ λ total sum.
            Ensures-then Q (context (non_zero total) no_yield_to_claim) _ λ claimed some_yield.
              Ensures-bind (Taken addr a p1 claimed) Q
                (register_lp_claimed_yield claimed (save_addr addr (emptied a) p1)) _
                (register_lp_claimed_yield-Taken addr a p1 claimed)
                λ p2 after.
                  Ensures-bind (Sends to_wallet addr claimed p2) Q
                    (send_yield to_wallet e addr claimed p2) _
                    (send_yield-Sends to_wallet e addr claimed p2)
                    λ p3 sent.
                      IsClaimed-all m addr to_wallet p p1 p2 p3 a claimed d run
                        (Ensures-ok (KeepsFees addr p) m
                          (perform_lp_book_keeping-KeepsFees e addr p) run)
                        (load_addr-SameYields addr p1 found)
                        (non_zero_ok total no_yield_to_claim some_yield ∙ total_yield_ok a sum)
                        (non_zero_positive total no_yield_to_claim some_yield) after sent)
        h
