-- ===== src/Number/Exact.antt =====
-- The checked operations of packages/perpswap/src/number/types.rs where they succeed.
use levana_perps.Cosmwasm.{Cosmwasm, IsDocumented}
use levana_perps.Number.NonZero.{non_zero}
use levana_perps.Number.Unsigned.{checked_add, checked_sub}
use levana_perps.Prelude.{Error, ok, to_option, context, ℕ, ◌+◌, ◌≡◌, arith}

module _ ⦃c : Cosmwasm⦄ (doc : IsDocumented c) (a b : ℕ) {r : ℕ} where
  pub checked_add_ok : checked_add a b ≡ ok r → r ≡ a + b
  unfolding checked_add
  checked_add_ok h = ground (arith, rw (doc.dec_checked_add_lem a b) at h)

  pub checked_sub_ok : checked_sub a b ≡ ok r → r + b ≡ a
  unfolding checked_sub
  checked_sub_ok h = ground (arith, rw (doc.dec_checked_sub_lem a b) at h)

  pub to_option_sub_ok : (e : Error) → context (to_option (checked_sub a b)) e ≡ ok r → r + b ≡ a
  unfolding checked_sub
  to_option_sub_ok e h = ground (arith, rw (doc.dec_checked_sub_lem a b) at h)

pub non_zero_ok : (a : ℕ) (e : Error) {r : ℕ} → context (non_zero a) e ≡ ok r → r ≡ a
unfolding non_zero
non_zero_ok a e h = ground arith
