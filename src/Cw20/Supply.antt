-- ===== src/Cw20/Supply.antt =====
-- The books of the token: the sum of the balances, the total supply, the cap of the minter and the two
-- copies of each allowance.
use levana_perps.Prelude.{
  refl, ◌∙◌, ◌>>=◌, inl, inr, ℕ, ◌+◌, ◌-◌, ◌≤◌, ◌<◌, ◌≡◌, Option, none, some, arith, leb, ltb,
  if◌then◌else◌, ok, err, underflow, panic, not_found, Bool-cases,
}
use levana_perps.Prelude.Dict.{save-IsDict, weight-le-sum, sum-save, save, IsDict, sum}
use levana_perps.Cosmwasm.{Cosmwasm, IsDocumented, eq_documented, uint128_modulus}
use levana_perps.Cw20.State.{Token, TokenInfo, balance}
use levana_perps.Cw20.Ledger.{reduce_supply, debit, credit}

-- The sum of all balances.
abbrev pub held : {X : Type 0} → Token X → ℕ
held t = sum (λ n. n) t.balances

abbrev pub supply_of : Option TokenInfo → ℕ
supply_of none = 0
supply_of (some info) = info.total_supply

abbrev pub IsCapped : Option ℕ → ℕ → Type 0
IsCapped none supply = Unit {0}
IsCapped (some limit) supply = supply ≤ limit

-- The balances add up to the total supply, which is a `Uint128` and within the cap, and an allowance
-- reads the same from the owner's side and from the spender's.
pub record IsSound {X : Type 0} (t : Token X) : Type 0 where
  pub distinct : IsDict t.balances
  pub total : held t ≡ supply_of t.token_info
  pub fits : supply_of t.token_info < uint128_modulus
  pub capped : IsCapped t.minter_cap (supply_of t.token_info)
  pub mirrored :
      (owner spender : ℕ) → t.allowances owner spender ≡ t.allowances_spender spender owner

module _ ⦃c : Cosmwasm⦄ (doc : IsDocumented c) {X : Type 0} (a : ℕ) (t : Token X) where
  pub debit_lem :
      (o : ℕ)
      → debit o a t ≡ (
          if leb a (balance t o)
          then ok (record t { balances = save o (balance t o - a) t.balances })
          else err underflow)
  unfolding debit
  debit_lem o = rw (eq_documented doc) (ground arith)

  pub credit_lem :
      (r : ℕ)
      → credit r a t ≡ (
          if ltb (balance t r + a) uint128_modulus
          then ok (record t { balances = save r (balance t r + a) t.balances })
          else err panic)
  unfolding credit
  credit_lem r = rw (eq_documented doc) (ground arith)

  pub reduce_supply_lem : reduce_supply a t ≡ elim t.token_info [
    | none ↦ err not_found
    | some info ↦
        if leb a info.total_supply
        then ok
            (record t { token_info = some (record info { total_supply = info.total_supply - a }) })
        else err underflow
  ]
  unfolding reduce_supply
  reduce_supply_lem = rw (eq_documented doc) (ground arith)

module _ {X : Type 0} (a : ℕ) (t : Token X) where
  abbrev pub debited : ℕ → Token X
  debited o = record t { balances = save o (balance t o - a) t.balances }

  abbrev pub credited : ℕ → Token X
  credited r = record t { balances = save r (balance t r + a) t.balances }

  -- Taking out lowers the sum, and putting in raises it.
  pub held-debited : (o : ℕ) → a ≤ balance t o → held (debited o) + a ≡ held t
  held-debited o h = ground (arith, sum-save (λ n. n) o (balance t o - a) t.balances)

  pub held-credited : (r : ℕ) → held (credited r) ≡ held t + a
  held-credited r = ground (arith, sum-save (λ n. n) r (balance t r + a) t.balances)

  pub balance-le-held : (r : ℕ) → balance t r ≤ held t
  balance-le-held r = ground (arith, weight-le-sum (λ n. n) r t.balances)

module _ {X : Type 0} (a : ℕ) (t : Token X) where
  abbrev pub moved : ℕ → ℕ → Token X
  moved o r = credited a (debited a t o) r

  pub held-moved : (o r : ℕ) → a ≤ balance t o → held (moved o r) ≡ held t
  held-moved o r h = omega (arith, held-debited a t o h, held-credited a (debited a t o) r)

  pub moved-IsSound : (o r : ℕ) → IsSound t → a ≤ balance t o → IsSound (moved o r)
  moved-IsSound o r s h = record {
    distinct = save-IsDict r _ _ (save-IsDict o _ _ s.distinct);
    total = held-moved o r h ∙ s.total;
    fits = s.fits;
    capped = s.capped;
    mirrored = s.mirrored;
  }

module _ ⦃c : Cosmwasm⦄ (doc : IsDocumented c) {X : Type 0} (a : ℕ) (t : Token X) where
  -- In a sound state the addition to the receiver cannot panic.
  pub move_lem :
      (o r : ℕ)
      → IsSound t
      → (debit o a t >>= credit r a)
        ≡ (if leb a (balance t o) then ok (moved a t o r) else err underflow)
  move_lem o r s = rw (debit_lem doc a t o) (elim (Bool-cases (leb a (balance t o))) [
    | inl enough ↦
        rw (enough, credit_lem doc a (debited a t o) r)
          (ground (arith, held-debited a t o, balance-le-held a (debited a t o) r, s.total, s.fits))
    | inr short ↦ rw short refl
  ])
