-- ===== src/Cw20/Guarded.antt =====
-- The guard of the trading competition: contracts/cw20/src/state/trading_competition.rs with the
-- methods of contracts/cw20/src/state/cw20.rs that it restricts.
use levana_perps.Prelude.Dict.{may_load-save}
use levana_perps.Cosmwasm.{uint128_modulus, IsDocumented, Cosmwasm}
use levana_perps.Prelude.{
  ◌>>=◌, Ensures-bind, underflow, Ensures-then, ok, Result, context, not_found, Ensures-map, Bool,
  ltb, ◌-◌, leb, Bool-cases, Ensures, ℕ, ◌+◌, ◌≤◌, ◌≡◌, refl, ◌∙◌, ◌≢◌, inl, inr, Option, none,
  some, arith,
}
use levana_perps.Cw20.Supply.{credit_lem, debit_lem}
use levana_perps.Cw20.State.{Output, add_output, put, Token, balance, Allowance, PairMap}
use levana_perps.Cw20.Ledger.{reduce_supply, deduct, deduct_allowance, credit, debit}

module _ {X : Type 0} where
  abbrev spendable : Option (Allowance X) → ℕ
  spendable none = 0
  spendable (some a) = a.allowance

-- What a call can do while the trading competition is on: it adds at most `extra` to an account
-- other than the market, raises no allowance of a spender other than the market, and leaves the market.
pub record Guarded {X : Type 0} (market extra : ℕ) (t t' : Token X) : Type 0 where
  pub gains : (a : ℕ) → a ≢ market → balance t' a ≤ balance t a + extra
  pub allows : (o p : ℕ) → p ≢ market → spendable (t'.allowances o p) ≤ spendable (t.allowances o p)
  pub same_market : t'.market_address ≡ t.market_address

module _ {X : Type 0} (market : ℕ) where
  -- The balances of others than the market do not grow, nor do their allowances.
  abbrev pub Safe : Token X → Token X → Type 0
  Safe t t' = Guarded market 0 t t'

  same-Safe : (t : Token X) → Safe t t
  same-Safe t = record {
    gains = λ a _. omega arith;
    allows = λ o p _. omega arith;
    same_market = refl;
  }

  pub Guarded-then :
      (n : ℕ) (t u v : Token X) → Safe t u → Guarded market n u v → Guarded market n t v
  Guarded-then n t u v f g = record {
    gains = λ a other. omega (arith, f.gains a other, g.gains a other);
    allows = λ o p other. omega (arith, f.allows o p other, g.allows o p other);
    same_market = g.same_market ∙ f.same_market;
  }

  pub put-Safe :
      (o p : ℕ) (v : Option (Allowance X)) (m : PairMap (Allowance X)) (t : Token X)
      → (p ≢ market → spendable v ≤ spendable (t.allowances o p))
      → Safe t (record t { allowances = put o p v t.allowances; allowances_spender = m })
  put-Safe o p v m t h = record {
    gains = λ a _. omega arith;
    allows = λ o' p' other. ground (arith, h);
    same_market = refl;
  }

module _ ⦃c : Cosmwasm⦄ (doc : IsDocumented c) {X : Type 0} (market : ℕ) where
  deducted-le :
      (test : X → Bool) (a : ℕ) (al : Option (Allowance X)) {v : Allowance X}
      → deduct test a al ≡ ok v
      → v.allowance ≤ spendable al
  unfolding deduct
  deducted-le test a none h = cc
  deducted-le test a (some b) h =
      ground (arith, rw (doc.uint128_checked_sub_lem b.allowance a) at h)

  pub debit-Safe : (o a : ℕ) (t : Token X) → Ensures (Safe market t) (debit o a t)
  debit-Safe o a t = rw (debit_lem doc a t o) (elim (Bool-cases (leb a (balance t o))) [
    | inl enough ↦ rw enough (record {
      gains = λ b _. ground (arith, may_load-save b o (balance t o - a) t.balances);
      allows = λ o p _. omega arith;
      same_market = refl;
    })
    | inr lacking ↦ rw lacking tt
  ])

  -- Whoever is paid gains the amount.
  pub credit-Guarded : (r a : ℕ) (t : Token X) → Ensures (Guarded market a t) (credit r a t)
  credit-Guarded r a t =
      rw (credit_lem doc a t r) (elim (Bool-cases (ltb (balance t r + a) uint128_modulus)) [
        | inl fits ↦ rw fits (record {
          gains = λ b _. ground (arith, may_load-save b r (balance t r + a) t.balances);
          allows = λ o p _. omega arith;
          same_market = refl;
        })
        | inr full ↦ rw full tt
      ])

  pub credit-Safe : (a : ℕ) (t : Token X) → Ensures (Safe market t) (credit market a t)
  credit-Safe a t =
      rw (credit_lem doc a t market)
        (elim (Bool-cases (ltb (balance t market + a) uint128_modulus)) [
          | inl fits ↦ rw fits (record {
            gains =
                λ b other. ground (arith, may_load-save b market (balance t market + a) t.balances);
            allows = λ o p _. omega arith;
            same_market = refl;
          })
          | inr full ↦ rw full tt
        ])

  pub output-Safe : (o : Output X) (t : Token X) → Safe market t (add_output o t)
  output-Safe o t = record {
    gains = λ a _. omega arith;
    allows = λ o p _. omega arith;
    same_market = refl;
  }

  -- A step that is safe, and what follows it.
  pub then-Guarded :
      (n : ℕ) (t : Token X) (m : Result (Token X)) (f : Token X → Result (Token X))
      → Ensures (Safe market t) m
      → ((u : Token X) → Ensures (Guarded market n u) (f u))
      → Ensures (Guarded market n t) (m >>= f)
  then-Guarded n t m f h k = Ensures-bind (Safe market t) (Guarded market n t) m f h λ u s.
      Ensures-map (Guarded market n u) (Guarded market n t) (f u) (k u)
        λ v. Guarded-then market n t u v s

  pub deduct_allowance-Safe :
      (test : X → Bool) (o p a : ℕ) (t : Token X)
      → Ensures (Safe market t) (deduct_allowance test o p a t)
  unfolding deduct_allowance
  deduct_allowance-Safe test o p a t =
      let Q = Safe market t in
      Ensures-then Q (deduct test a (t.allowances o p)) _ λ v less.
        Ensures-then Q (deduct test a (t.allowances_spender p o)) _
          λ w _. put-Safe market o p (some v) _ t λ _. deducted-le test a (t.allowances o p) less

  reduce_supply-Safe : (a : ℕ) (t : Token X) → Ensures (Safe market t) (reduce_supply a t)
  unfolding reduce_supply
  reduce_supply-Safe a t = Ensures-then (Safe market t) (context t.token_info not_found) _ λ info _.
      Ensures-then (Safe market t) (context (c.uint128_checked_sub info.total_supply a) underflow) _
        λ left _. record {
          gains = λ b _. omega arith;
          allows = λ o p _. omega arith;
          same_market = refl;
        }

  -- Tokens that move to the market.
  pub pay_market-Safe :
      (o a : ℕ) (t : Token X) → Ensures (Safe market t) (debit o a t >>= credit market a)
  pay_market-Safe o a t = then-Guarded 0 t (debit o a t) _ (debit-Safe o a t) (credit-Safe a)

  pub destroy-Safe :
      (o a : ℕ) (t : Token X) → Ensures (Safe market t) (debit o a t >>= reduce_supply a)
  destroy-Safe o a t = then-Guarded 0 t (debit o a t) _ (debit-Safe o a t) (reduce_supply-Safe a)
