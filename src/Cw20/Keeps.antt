-- ===== src/Cw20/Keeps.antt =====
-- The books of the token under the steps that its methods share, in
-- contracts/cw20/src/state/cw20.rs.
use levana_perps.Prelude.Dict.{sum, save-IsDict}
use levana_perps.Cosmwasm.{uint128_modulus, IsDocumented, Cosmwasm}
use levana_perps.Prelude.{
  cw20_funds, context-eq-ok, ensure-eq-ok, ensure, auth, panic, context, lt→ltb, Option-cases,
  le→leb, if◌then◌else◌, ok, err, underflow, ◌+◌, ◌-◌, ◌≤◌, ◌<◌, ◌≡◌, ap, ◌∙◌, true, none, some,
  Bool-cases, leb, leb→le, Ensures, ◌>>=◌, Result, ℕ, inl, inr, Option, arith,
}
use levana_perps.Cw20.Supply.{
  held-credited, credit_lem, balance-le-held, debited, held-debited, held, IsCapped, supply_of,
  move_lem, IsSound, reduce_supply_lem, debit_lem, moved-IsSound,
}
use levana_perps.Cw20.State.{TokenInfo, balance, add_output, Token, put, Output, Allowance}
use levana_perps.Cw20.Ledger.{within_cap, credit, reduce_supply, debit}

abbrev pub Keeps : {X : Type 0} → Result (Token X) → Type 0
Keeps r = Ensures IsSound r

IsCapped-le : (cap : Option ℕ) (m n : ℕ) → m ≤ n → IsCapped cap n → IsCapped cap m
IsCapped-le none m n h k = tt
IsCapped-le (some limit) m n h k = omega arith

within_cap-IsCapped : (cap : Option ℕ) (n : ℕ) → within_cap n cap ≡ true → IsCapped cap n
within_cap-IsCapped none n h = tt
within_cap-IsCapped (some limit) n h = ground arith

module _ {X : Type 0} where
  pub add_output-IsSound : (o : Output X) (t : Token X) → IsSound t → IsSound (add_output o t)
  add_output-IsSound o t s = record {
    distinct = s.distinct;
    total = s.total;
    fits = s.fits;
    capped = s.capped;
    mirrored = s.mirrored;
  }

  pub put_both-IsSound :
      (o p : ℕ) (v : Option (Allowance X)) (t : Token X)
      → IsSound t
      → IsSound (record t {
        allowances = put o p v t.allowances;
        allowances_spender = put p o v t.allowances_spender;
      })
  put_both-IsSound o p v t s = record {
    distinct = s.distinct;
    total = s.total;
    fits = s.fits;
    capped = s.capped;
    mirrored = λ owner spender. ground (arith, s.mirrored owner spender);
  }

  pub minter-IsSound :
      (addr : ℕ) (t : Token X) → IsSound t → IsSound (record t { minter = some addr })
  minter-IsSound addr t s = record {
    distinct = s.distinct;
    total = s.total;
    fits = s.fits;
    capped = s.capped;
    mirrored = s.mirrored;
  }

  pub market-IsSound :
      (addr : ℕ) (t : Token X) → IsSound t → IsSound (record t { market_address = some addr })
  market-IsSound addr t s = record {
    distinct = s.distinct;
    total = s.total;
    fits = s.fits;
    capped = s.capped;
    mirrored = s.mirrored;
  }

  abbrev pub with_supply : TokenInfo → Token X → Token X
  with_supply info t = record t { token_info = some info }

  destroyed :
      (t : Token X) (s : IsSound t) (o a : ℕ) (info : TokenInfo)
      → t.token_info ≡ some info
      → a ≤ balance t o
      → Keeps (
          if leb a info.total_supply
          then ok
              (with_supply (record info { total_supply = info.total_supply - a }) (debited a t o))
          else err underflow)
  destroyed t s o a info e h =
      let total : held t ≡ info.total_supply = s.total ∙ ap supply_of e in
      let enough : a ≤ info.total_supply = omega (arith, balance-le-held a t o) in
      let fits : info.total_supply < uint128_modulus = rw e at s.fits in
      rw (le→leb a info.total_supply enough) (record {
        distinct = save-IsDict o _ _ s.distinct;
        total = omega (arith, held-debited a t o h);
        fits = omega arith;
        capped = IsCapped-le t.minter_cap _ info.total_supply (omega arith) (rw e at s.capped);
        mirrored = s.mirrored;
      })

module _ ⦃c : Cosmwasm⦄ (doc : IsDocumented c) {X : Type 0} (t : Token X) (s : IsSound t) where
  pub move-IsSound : (o r a : ℕ) → Keeps (debit o a t >>= credit r a)
  move-IsSound o r a = rw (move_lem doc a t o r s) (elim (Bool-cases (leb a (balance t o))) [
    | inl enough ↦ rw enough (moved-IsSound a t o r s (leb→le a (balance t o) enough))
    | inr short ↦ rw short tt
  ])

  pub destroy-IsSound : (o a : ℕ) → Keeps (debit o a t >>= reduce_supply a)
  destroy-IsSound o a = rw (debit_lem doc a t o) (elim (Bool-cases (leb a (balance t o))) [
    | inl enough ↦
        rw (enough, reduce_supply_lem doc a (debited a t o))
          (elim (Option-cases t.token_info) [
            | inl absent ↦ rw absent tt
            | inr (info, e) ↦ rw e (destroyed t s o a info e (leb→le a (balance t o) enough))
          ])
    | inr short ↦ rw short tt
  ])

  pub create-IsSound :
      (r a : ℕ) (info : TokenInfo)
      → t.token_info ≡ some info
      → info.total_supply + a < uint128_modulus
      → within_cap (info.total_supply + a) t.minter_cap ≡ true
      → Keeps (credit r a (with_supply (record info { total_supply = info.total_supply + a }) t))
  create-IsSound r a info e fits room =
      let after = with_supply (record info { total_supply = info.total_supply + a }) t in
      let total : held t ≡ info.total_supply = s.total ∙ ap supply_of e in
      rw (credit_lem doc a after r, lt→ltb _ _ (bounded total))
        (record {
          distinct = save-IsDict r _ _ s.distinct;
          total = omega (arith, held-credited a t r);
          fits = fits;
          capped = within_cap-IsCapped t.minter_cap _ room;
          mirrored = s.mirrored;
        })
    where
      bounded : held t ≡ info.total_supply → balance t r + a < uint128_modulus
      bounded total = omega (arith, balance-le-held a t r)

  -- The sum that `mint` computes is the new supply, in range.
  minted_supply :
      (m n a : ℕ) → context (c.uint128_add m a) panic ≡ ok n → (n ≡ m + a) × (n < uint128_modulus)
  minted_supply m n a e = ground (arith, rw (doc.uint128_add_lem m a) at e)

  pub minted-IsSound :
      (r a n : ℕ) (info : TokenInfo) {u : Unit {0}}
      → context t.token_info auth ≡ ok info
      → context (c.uint128_add info.total_supply a) panic ≡ ok n
      → ensure (within_cap n t.minter_cap) cw20_funds ≡ ok u
      → Keeps (credit r a (with_supply (record info { total_supply = n }) t))
  minted-IsSound r a n info known sum room =
      let (e, fits) = minted_supply info.total_supply n a sum in
      rw e (
        create-IsSound r a info (context-eq-ok _ _ known) (rw e at fits)
          (rw e at (ensure-eq-ok _ _ room)))
