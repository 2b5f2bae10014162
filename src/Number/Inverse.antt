-- ===== src/Number/Inverse.antt =====
-- `NonZero::inverse` of packages/perpswap/src/number/nonzero.rs.
use levana_perps.Cosmwasm.{IsDocumented, one, eq_documented, Cosmwasm, documented}
use levana_perps.Number.NonZero.{inverse}
use levana_perps.Prelude.{
  ltb→lt, if◌then◌else◌, ltb→ge, ltb, Bool-cases, inl, inr, ◌+◌, ◌*◌, arith, panic, ok, err, ℕ, ◌/◌,
  ◌≤◌, ◌<◌, ◌≡◌,
}

-- 10^18 divided by the value, in atomics.
abbrev pub reciprocal : ℕ → ℕ
reciprocal a = one * one / a

reciprocal-big : (a : ℕ) → one * one < a → reciprocal a ≡ 0
reciprocal-big a h = grind arith

reciprocal_lem :
    (a : ℕ)
    → 0 < a
    → (reciprocal a * a ≤ one * one)
      × (one * one < reciprocal a * a + a)
      × (reciprocal a ≤ one * one)
      × (a ≤ one * one → 0 < reciprocal a)
reciprocal_lem a h = grind arith

inverse_value :
    (a : ℕ)
    → 0 < a
    → inverse ⦃c = documented⦄ a ≡ (if ltb (one * one) a then err panic else ok (reciprocal a))
unfolding inverse
inverse_value a h =
    let (low, high, bound, positive) = reciprocal_lem a h in
    elim (Bool-cases (ltb (one * one) a)) [
      | inl big ↦ rw big (ground (arith, reciprocal-big a (ltb→lt _ _ big)))
      | inr small ↦ rw small (ground (arith, positive (ltb→ge _ _ small)))
    ]

module _ ⦃c : Cosmwasm⦄ (doc : IsDocumented c) where
  inverse_result :
      (a : ℕ) → 0 < a → inverse a ≡ (if ltb (one * one) a then err panic else ok (reciprocal a))
  inverse_result = rw (eq_documented doc) inverse_value

  -- `inverse` of a non-zero value panics exactly if the value is above 10^18 (10^36 atomics), since the
  -- quotient then rounds to 0; else it is the reciprocal, rounded down to 18 digits.
  pub inverse_lem :
      (a : ℕ)
      → 0 < a
      → (inverse a ≡ (if ltb (one * one) a then err panic else ok (reciprocal a)))
        × (reciprocal a * a ≤ one * one)
        × (one * one < reciprocal a * a + a)
  inverse_lem a h = let (low, high, _, _) = reciprocal_lem a h in (inverse_result a h, low, high)
