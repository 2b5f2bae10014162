-- ===== src/Cw20/Spending.antt =====
-- Spending an allowance: `deduct_allowance` and `transfer_from` of contracts/cw20/src/state/cw20.rs.
use levana_perps.Cosmwasm.{eq_documented, IsDocumented, Cosmwasm, documented}
use levana_perps.Prelude.{
  leb, if◌then◌else◌, Bool-cases, ok, Result, ◌>>=◌, expired, underflow, err, auth, ℕ, ◌-◌, ◌≡◌,
  refl, inl, inr, Bool, Option, none, some, arith,
}
use levana_perps.Cw20.Supply.{IsSound, move_lem, moved}
use levana_perps.Cw20.State.{Allowance, add_output, put, transfer_event, balance, Token}
use levana_perps.Cw20.Ledger.{deduct_allowance, credit, transfer_from, debit}
use levana_perps.Cw20.Keeps.{put_both-IsSound, add_output-IsSound}

module _ {X : Type 0} where
  abbrev spent : ℕ → Allowance X → Allowance X
  spent amount a = record a { allowance = a.allowance - amount }

  -- The token after an allowance is spent, in both of its copies.
  abbrev pub deducted : ℕ → ℕ → ℕ → Allowance X → Token X → Token X
  deducted owner spender amount a t = record t {
    allowances = put owner spender (some (spent amount a)) t.allowances;
    allowances_spender = put spender owner (some (spent amount a)) t.allowances_spender;
  }

  -- Deducting, as the specification has it.
  abbrev pub spends :
      (X → Bool) → ℕ → Option (Allowance X) → (Allowance X → Result (Token X)) → Result (Token X)
  spends is_expired amount none next = err auth
  spends is_expired amount (some a) next =
      if is_expired a.expires
      then err expired
      else if leb amount a.allowance
      then next a
      else err underflow

  documented_deduct :
      (test : X → Bool) (o p a : ℕ) (t : Token X)
      → t.allowances o p ≡ t.allowances_spender p o
      → deduct_allowance ⦃c = documented⦄ test o p a t
        ≡ spends test a (t.allowances o p) (λ al. ok (deducted o p a al t))
  unfolding deduct_allowance
  documented_deduct test o p a t same = rw (← same) (ground arith)

module _ ⦃c : Cosmwasm⦄ (doc : IsDocumented c) {X : Type 0} where
  deduct_allowance_lem :
      (test : X → Bool) (o p a : ℕ) (t : Token X)
      → t.allowances o p ≡ t.allowances_spender p o
      → deduct_allowance test o p a t
        ≡ spends test a (t.allowances o p) (λ al. ok (deducted o p a al t))
  deduct_allowance_lem = rw (eq_documented doc) documented_deduct

  after_spending :
      (test : X → Bool) (o p r a : ℕ) (t : Token X) (al : Option (Allowance X))
      → IsSound t
      → (spends test a al (λ x. ok (deducted o p a x t)) >>= λ u. debit o a u >>= credit r a)
        ≡ spends test a al (λ x.
          if leb a (balance t o) then ok (moved a (deducted o p a x t) o r) else err underflow)
  after_spending test o p r a t none s = refl
  after_spending test o p r a t (some x) s = elim (Bool-cases (test x.expires)) [
    | inl late ↦ rw late refl
    | inr valid ↦ rw valid (elim (Bool-cases (leb a x.allowance)) [
      | inl enough ↦
          rw enough
            (move_lem doc a (deducted o p a x t) o r (put_both-IsSound o p (some (spent a x)) t s))
      | inr short ↦ rw short refl
    ])
  ]

  -- In a token whose books are in order, `transfer_from` fails without an allowance, with an expired
  -- one, with one below the amount, and with a balance below the amount, each with its error. Otherwise
  -- it takes the amount off both copies of the allowance and moves it from the owner to the recipient.
  pub transfer_from_lem :
      (test : X → Bool) (p o r a : ℕ) (t : Token X)
      → IsSound t
      → transfer_from test p o r a t ≡ (
          let t1 = add_output (transfer_event o r a (some p)) t in
          spends test a (t.allowances o p) (λ x.
            if leb a (balance t o) then ok (moved a (deducted o p a x t1) o r) else err underflow))
  unfolding transfer_from
  transfer_from_lem test p o r a t s =
      let t1 = add_output (transfer_event o r a (some p)) t in
      rw (deduct_allowance_lem test o p a t1 (s.mirrored o p))
        (after_spending test o p r a t1 (t.allowances o p) (add_output-IsSound _ t s))
