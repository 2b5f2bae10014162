-- ===== src/Number/Signed.antt =====
-- `Signed<T>` of packages/perpswap/src/number/types.rs, ops.rs and number.rs.
use levana_perps.Cosmwasm.{Cosmwasm}
use levana_perps.Number.Unsigned.{checked_sub, checked_add}
use levana_perps.Prelude.{
  ◌>>=◌, ◌>>◌, ◌==◌, leb, if◌then◌else◌, negative_value, ok, overflow, Result, divide_by_zero,
  ensure, context, compare, Ordering, lt, gt, ℕ, Bool, true, false, not, ◌&&◌, ◌||◌, Option, none,
  some,
}

pub record Signed : Type 0 where
  pub value : ℕ
  -- Invariant of the source: false if the value is 0.
  pub negative : Bool

abbrev pub new_positive : ℕ → Signed
new_positive v = record { value = v; negative = false }

abbrev pub new_negative : ℕ → Signed
new_negative v = record { value = v; negative = not (v == 0) }

abbrev pub is_negative : Signed → Bool
is_negative a = a.negative

abbrev pub is_zero : Signed → Bool
is_zero a = a.value == 0

abbrev pub is_positive_or_zero : Signed → Bool
is_positive_or_zero a = not a.negative

abbrev pub is_strictly_positive : Signed → Bool
is_strictly_positive a = not (is_zero a) && not a.negative

unfoldable pub neg : Signed → Signed
neg a = if not (a.value == 0) then record a { negative = not a.negative } else a

abbrev pub abs : Signed → Signed
abs a = new_positive a.value

-- `Signed::map`: keeps the sign, and drops it at 0.
unfoldable pub map_value : (ℕ → ℕ) → Signed → Signed
map_value f a = if a.negative then new_negative (f a.value) else new_positive (f a.value)

abbrev pub try_into_non_negative_value : Signed → Option ℕ
try_into_non_negative_value a = if a.negative then none else some a.value

-- `Ord::cmp`.
unfoldable pub cmp : Signed → Signed → Ordering
cmp a b =
    if is_positive_or_zero a
    then if is_positive_or_zero b then compare a.value b.value else gt
    else if is_positive_or_zero b
    then lt
    else compare b.value a.value

-- `<` and `>`, and `Ord::min` and `Ord::max`, by `cmp`.
unfoldable pub is_less : Signed → Signed → Bool
unfolding cmp
is_less a b = elim (cmp a b) [ lt ↦ true | _ ↦ false ]

unfoldable pub min_of : Signed → Signed → Signed
unfolding is_less
min_of a b = if is_less b a then b else a

unfoldable pub max_of : Signed → Signed → Signed
unfolding is_less
max_of a b = if is_less b a then a else b

module _ ⦃c : Cosmwasm⦄ where
  add_magnitudes : (ℕ → Signed) → ℕ → ℕ → Result Signed
  unfolding checked_add
  add_magnitudes sign a b = do v ← checked_add a b; ok (sign v)

  subtract_magnitudes : (ℕ → Signed) → ℕ → ℕ → Result Signed
  unfolding checked_sub
  subtract_magnitudes sign a b = do v ← checked_sub a b; ok (sign v)

  unfoldable pub signed_add : Signed → Signed → Result Signed
  unfolding add_magnitudes subtract_magnitudes
  signed_add a b =
      if a.negative
      then (if b.negative
          then add_magnitudes new_negative a.value b.value
          else (if leb b.value a.value
              then subtract_magnitudes new_negative a.value b.value
              else subtract_magnitudes new_positive b.value a.value))
      else (if b.negative
          then (if leb b.value a.value
              then subtract_magnitudes new_positive a.value b.value
              else subtract_magnitudes new_negative b.value a.value)
          else add_magnitudes new_positive a.value b.value)

  unfoldable pub signed_sub : Signed → Signed → Result Signed
  unfolding signed_add neg
  signed_sub a b = signed_add a (neg b)

  -- The sign of a product or a quotient.
  abbrev signed_by : Signed → Signed → ℕ → Signed
  signed_by a b v =
      if (a.negative && b.negative) || (not a.negative && not b.negative)
      then new_positive v
      else new_negative v

  unfoldable pub signed_mul : Signed → Signed → Result Signed
  signed_mul a b = do v ← context (c.dec_checked_mul a.value b.value) overflow; ok (signed_by a b v)

  unfoldable pub signed_div : Signed → Signed → Result Signed
  signed_div a b = do
    ensure (not (is_zero b)) divide_by_zero
    v ← context (c.dec_checked_div a.value b.value) overflow
    ok (signed_by a b v)

  -- `UnsignedDecimal::checked_add_signed`.
  unfoldable pub checked_add_signed : ℕ → Signed → Result ℕ
  unfolding signed_add
  checked_add_signed a b = do
    s ← signed_add (new_positive a) b
    context (try_into_non_negative_value s) negative_value
