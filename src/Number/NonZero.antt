-- ===== src/Number/NonZero.antt =====
-- `NonZero<T>` of packages/perpswap/src/number/types.rs and nonzero.rs: a value that is not 0, here
-- the value, with the check where the source makes one.
use levana_perps.Cosmwasm.{one, Cosmwasm}
use levana_perps.Number.Signed.{signed_add, try_into_non_negative_value, Signed, new_positive, neg}
use levana_perps.Number.Unsigned.{checked_add, div_non_zero, checked_sub}
use levana_perps.Prelude.{
  ◌>>=◌, if◌then◌else◌, ◌==◌, to_option, underflow, Result, negative_value, panic, context, err, ℕ,
  Option, none, some,
}

-- `NonZero::new`.
unfoldable pub non_zero : ℕ → Option ℕ
non_zero v = if v == 0 then none else some v

-- `NonZero::try_from_signed`.
unfoldable pub try_from_signed : Signed → Result ℕ
unfolding non_zero
try_from_signed a = elim (try_into_non_negative_value a) [
  | none ↦ err negative_value
  | some v ↦ context (non_zero v) negative_value
]

module _ ⦃c : Cosmwasm⦄ where
  -- `NonZero::checked_add`: the sum, which the source expects to be non-zero.
  unfoldable pub non_zero_add : ℕ → ℕ → Result ℕ
  unfolding checked_add non_zero
  non_zero_add a b = do v ← checked_add a b; context (non_zero v) panic

  -- `NonZero::checked_sub`.
  unfoldable pub non_zero_sub : ℕ → ℕ → Result ℕ
  unfolding checked_sub non_zero
  non_zero_sub a b = elim (to_option (checked_sub a b)) [
    | none ↦ err underflow
    | some v ↦ context (non_zero v) underflow
  ]

  -- `NonZero::checked_add_signed` and `NonZero::checked_sub_signed`.
  unfoldable pub non_zero_add_signed : ℕ → Signed → Result ℕ
  unfolding signed_add try_from_signed
  non_zero_add_signed a b = do s ← signed_add (new_positive a) b; try_from_signed s

  unfoldable pub non_zero_sub_signed : ℕ → Signed → Result ℕ
  unfolding signed_add neg try_from_signed
  non_zero_sub_signed a b = do s ← signed_add (new_positive a) (neg b); try_from_signed s

  -- `NonZero::inverse`.
  unfoldable pub inverse : ℕ → Result ℕ
  unfolding div_non_zero non_zero
  inverse a = do v ← div_non_zero one a; context (non_zero v) panic
