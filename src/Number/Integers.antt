-- ===== src/Number/Integers.antt =====
-- `Signed` of packages/perpswap/src/number/types.rs as a representation of the integers: a sign and a
-- magnitude below 2^256.
use levana_perps.Cosmwasm.{eq_documented, IsDocumented, Cosmwasm, uint256_modulus, documented}
use levana_perps.Number.Signed.{neg, signed_sub, new_negative, new_positive, signed_add, Signed}
use levana_perps.Prelude.{
  ltb→lt, Bool-cases, Ensures-ok, refl, sym, ◌∙◌, inl, inr, ltb, if◌then◌else◌, Result, err, ok,
  overflow, suc, ◌<◌, ◌≡◌, false, arith,
}
use levana_perps.Prelude.Int.{◌-ℤ◌, ℤ, ◌+ℤ◌, pos, size, negsuc, sub_ℕ}

abbrev pub to_ℤ : Signed → ℤ
to_ℤ a = if a.negative then sub_ℕ 0 a.value else pos a.value

-- The number that the source stores for an integer.
abbrev pub of_ℤ : ℤ → Signed
of_ℤ (pos n) = new_positive n
of_ℤ (negsuc n) = new_negative (suc n)

-- In range, and 0 is not negative.
pub record IsNumber (a : Signed) : Type 0 where
  pub fits : a.value < uint256_modulus
  pub canonical : a.value ≡ 0 → a.negative ≡ false

-- The sum as the specification has it: exact, or an overflow.
abbrev pub in_range : ℤ → Result Signed
in_range z = if ltb (size z) uint256_modulus then ok (of_ℤ z) else err overflow

documented_add :
    (a b : Signed)
    → IsNumber a
    → IsNumber b
    → signed_add ⦃c = documented⦄ a b ≡ in_range (to_ℤ a +ℤ to_ℤ b)
unfolding signed_add ◌+ℤ◌
documented_add a b p q = ground arith

documented_sub :
    (a b : Signed)
    → IsNumber a
    → IsNumber b
    → signed_sub ⦃c = documented⦄ a b ≡ in_range (to_ℤ a -ℤ to_ℤ b)
unfolding signed_sub neg ◌-ℤ◌
documented_sub a b p q = ground arith

pub to_ℤ-of_ℤ : (z : ℤ) → to_ℤ (of_ℤ z) ≡ z
to_ℤ-of_ℤ (pos n) = refl
to_ℤ-of_ℤ (negsuc n) = ground arith

pub of_ℤ-to_ℤ : (a : Signed) → IsNumber a → of_ℤ (to_ℤ a) ≡ a
of_ℤ-to_ℤ a p = ground arith

pub of_ℤ-IsNumber : (z : ℤ) → size z < uint256_modulus → IsNumber (of_ℤ z)
of_ℤ-IsNumber (pos n) h = record { fits = omega arith; canonical = λ e. refl }
of_ℤ-IsNumber (negsuc n) h = record { fits = omega arith; canonical = λ e. ground arith }

module _ ⦃c : Cosmwasm⦄ (doc : IsDocumented c) where
  -- `checked_add` on two numbers in range whose zeros are not negative is the sum of the integers that
  -- they stand for, stored with its sign, and an overflow exactly if that is out of range.
  pub signed_add_lem :
      (a b : Signed) → IsNumber a → IsNumber b → signed_add a b ≡ in_range (to_ℤ a +ℤ to_ℤ b)
  signed_add_lem = rw (eq_documented doc) documented_add

  -- `checked_sub`, which adds the negated number, is the difference of the integers in the same way.
  pub signed_sub_lem :
      (a b : Signed) → IsNumber a → IsNumber b → signed_sub a b ≡ in_range (to_ℤ a -ℤ to_ℤ b)
  signed_sub_lem = rw (eq_documented doc) documented_sub

  -- A sum that succeeds is in range again, with its zero not negative.
  pub signed_add-IsNumber :
      (a b : Signed) {r : Signed} → IsNumber a → IsNumber b → signed_add a b ≡ ok r → IsNumber r
  signed_add-IsNumber a b p q e = stored (to_ℤ a +ℤ to_ℤ b) (sym (signed_add_lem a b p q) ∙ e)
    where
      stored : (z : ℤ) {r : Signed} → in_range z ≡ ok r → IsNumber r
      stored z h = elim (Bool-cases (ltb (size z) uint256_modulus)) [
        | inl within ↦
            Ensures-ok IsNumber (in_range z) (rw within (of_ℤ-IsNumber z (ltb→lt _ _ within))) h
        | inr beyond ↦ cc (rw beyond at h)
      ]
