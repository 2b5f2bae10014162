-- ===== src/Liquidity/ReferralBalance.antt =====
-- The balances of the fees under the collection of a trader's fee, in
-- contracts/market/src/state/fees.rs.
use levana_perps.Cosmwasm.{Cosmwasm, IsDocumented}
use levana_perps.Liquidity.FeeBalance.{collect_trading_fee_lem}
use levana_perps.Liquidity.Referral.{
  reward_referrer, collect_trading_fee, take_referral, add_summary_referral, ReferralRates,
  ReferralStats,
}
use levana_perps.Liquidity.Fees.{collect_trading_fee_inner}
use levana_perps.Liquidity.Storage.{save_addr, load_addr_default}
use levana_perps.Number.Exact.{checked_add_ok, checked_sub_ok}
use levana_perps.Number.Unsigned.{checked_mul_dec, checked_sub, checked_add}
use levana_perps.Prelude.{
  ◌==◌, if◌then◌else◌, Ensures-bind, Ensures-ok, ok, Ensures, Ensures-then, ℕ, ◌+◌, ◌≤◌, ◌≡◌, refl,
  Option, none, some, arith,
}
use levana_perps.Prelude.Dict.{Dict}
use levana_perps.Liquidity.State.{Env, Pool}

-- The balances grow by the amount, and that of cranks stays.
abbrev pub Collects : ℕ → Pool → Pool → Type 0
Collects amount p q =
    (q.fees.wallets + q.fees.protocol + q.fees.referral
      ≡ p.fees.wallets + p.fees.protocol + p.fees.referral + amount)
    × (p.fees.referral ≤ q.fees.referral)
    × (q.fees.crank ≡ p.fees.crank)

-- The reward is in the balance of the referrals.
abbrev Rewards : ℕ → Pool → Pool → Type 0
Rewards reward p q =
    (q.fees.referral ≡ p.fees.referral + reward)
    × (q.fees.wallets ≡ p.fees.wallets)
    × (q.fees.protocol ≡ p.fees.protocol)
    × (q.fees.crank ≡ p.fees.crank)

module _ ⦃c : Cosmwasm⦄ (doc : IsDocumented c) where
  reward_referrer-Rewards :
      (referrer reward : ℕ) (p : Pool)
      → Ensures (Rewards reward p) (reward_referrer referrer reward p)
  unfolding reward_referrer save_addr
  reward_referrer-Rewards referrer reward p =
      let Q = Rewards reward p in
      Ensures-then Q (checked_add p.fees.referral reward) _ λ referral adds.
        Ensures-then Q
          (load_addr_default referrer (record p { fees = record p.fees { referral = referral } })) _
          λ a _.
            Ensures-then Q (checked_add a.referrer_rewards reward) _
              λ rewards _. (checked_add_ok doc p.fees.referral reward adds, refl, refl, refl)

  -- What is left and the reward are the fee.
  take_referral-Rewards :
      (r : ReferralRates) (e : Env) (owner : ℕ) (referrer : Option ℕ) (amount : ℕ)
      (d : Dict ReferralStats) (p : Pool)
      → Ensures
          (λ t. (reward : ℕ) × (t.0 + reward ≡ amount) × Rewards reward p t.2)
          (take_referral r e owner referrer amount d p)
  unfolding take_referral
  take_referral-Rewards r e owner none amount d p =
      (0, omega arith, (omega arith, refl, refl, refl))
  take_referral-Rewards r e owner (some referrer) amount d p =
      let Q : ℕ × Dict ReferralStats × Pool → Type 0 =
        λ t. (reward : ℕ) × (t.0 + reward ≡ amount) × Rewards reward p t.2 in
      Ensures-then Q (checked_mul_dec amount r.referral_reward_ratio) _ λ reward _.
        Ensures-bind (Rewards reward p) Q (reward_referrer referrer reward p) _
          (reward_referrer-Rewards referrer reward p)
          λ p1 rewards.
            Ensures-then Q
              (if reward == 0 then ok d else add_summary_referral e owner referrer reward d) _
              λ d1 _.
                Ensures-then Q (checked_sub amount reward) _
                  λ rest parts. (reward, checked_sub_ok doc amount reward parts, rewards)

  -- The fee of a trader is accounted for to the last unit, also where a referrer gets a part: the
  -- balances of the wallets, the protocol and the referrals grow by the fee together, that of the
  -- referrals does not shrink, and that of the cranks stays.
  pub collect_referred_fee_lem :
      (r : ReferralRates) (e : Env) (owner : ℕ) (referrer : Option ℕ) (amount : ℕ)
      (d : Dict ReferralStats) (p : Pool) {q : Dict ReferralStats × Pool}
      → collect_trading_fee r e owner referrer amount d p ≡ ok q
      → Collects amount p q.1
  unfolding collect_trading_fee
  collect_referred_fee_lem r e owner referrer amount d p h =
      let Q : Dict ReferralStats × Pool → Type 0 = λ q. Collects amount p q.1 in
      Ensures-ok Q (collect_trading_fee r e owner referrer amount d p)
        (Ensures-bind _ Q (take_referral r e owner referrer amount d p) _
          (take_referral-Rewards r e owner referrer amount d p)
          λ t rewards. Ensures-then Q (collect_trading_fee_inner r.rates e t.0 t.2) _ λ q run.
            let adds = collect_trading_fee_lem doc r.rates e t.0 t.2 run in
            (
              omega (arith, adds.0, adds.4, rewards.1, rewards.2),
              omega (arith, adds.4, rewards.2),
              omega (arith, adds.3, rewards.2),
            ))
        h
