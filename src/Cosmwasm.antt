-- ===== src/Cosmwasm.antt =====
-- The arithmetic of the `cosmwasm_std` crate, which the contracts call and this repository does not
-- hold: a parameter. A `Uint128` is its value, and a `Decimal256` its atomics, the value times 10^18.
-- `none` is an `Err`, and for the operators `+`, `*`, `/` and for `from_ratio` the panic.
use levana_perps.Prelude.{
  ℕ, ◌+◌, ◌-◌, ◌*◌, ◌/◌, ◌^◌, ◌≡◌, refl, fun_ext, Option, none, some, ltb, leb, ◌==◌, if◌then◌else◌,
}

abbrev pub uint128_modulus : ℕ
uint128_modulus = 2 ^ 128

abbrev pub uint64_modulus : ℕ
uint64_modulus = 2 ^ 64

abbrev pub uint256_modulus : ℕ
uint256_modulus = 2 ^ 256

-- `Decimal256::one().atomics()`.
abbrev pub one : ℕ
one = 10 ^ 18

pub record Cosmwasm : Type 0 where
  pub uint128_add : ℕ → ℕ → Option ℕ
  pub uint128_checked_sub : ℕ → ℕ → Option ℕ
  pub dec_checked_add : ℕ → ℕ → Option ℕ
  pub dec_checked_sub : ℕ → ℕ → Option ℕ
  pub dec_checked_mul : ℕ → ℕ → Option ℕ
  pub dec_checked_div : ℕ → ℕ → Option ℕ
  pub dec_div : ℕ → ℕ → Option ℕ
  pub dec_mul : ℕ → ℕ → Option ℕ
  pub dec_from_ratio : ℕ → ℕ → Option ℕ
  pub uint128_checked_add : ℕ → ℕ → Option ℕ
  pub uint128_sub : ℕ → ℕ → Option ℕ
  pub uint128_saturating_sub : ℕ → ℕ → ℕ
  pub uint128_multiply_ratio : ℕ → ℕ → ℕ → Option ℕ
  pub uint64_add : ℕ → ℕ → Option ℕ
  pub dec_from_atomics : ℕ → ℕ → Option ℕ

abbrev pub below : ℕ → ℕ → Option ℕ
below modulus a = if ltb a modulus then some a else none

abbrev pub difference : ℕ → ℕ → Option ℕ
difference a b = if leb b a then some (a - b) else none

abbrev pub quotient : ℕ → ℕ → Option ℕ
quotient a b = if b == 0 then none else below uint256_modulus (a * one / b)

abbrev pub ratio : ℕ → ℕ → ℕ → Option ℕ
ratio a b d = if d == 0 then none else below uint128_modulus (a * b / d)

-- Atomics with `p` decimal places as atomics with 18.
abbrev pub scaled : ℕ → ℕ → ℕ
scaled a p = if leb p 18 then a * 10 ^ (18 - p) else a / 10 ^ (p - 18)

-- The documented behaviour: exact sums and differences that fail out of range, products and quotients
-- rounded down to 18 digits, which fail out of range and on a zero divisor. `multiply_ratio` rounds the
-- ratio down, and `saturating_sub` stops at 0.
pub record IsDocumented (c : Cosmwasm) : Type 0 where
  pub uint128_add_lem : (a b : ℕ) → c.uint128_add a b ≡ below uint128_modulus (a + b)
  pub uint128_checked_sub_lem : (a b : ℕ) → c.uint128_checked_sub a b ≡ difference a b
  pub dec_checked_add_lem : (a b : ℕ) → c.dec_checked_add a b ≡ below uint256_modulus (a + b)
  pub dec_checked_sub_lem : (a b : ℕ) → c.dec_checked_sub a b ≡ difference a b
  pub dec_checked_mul_lem : (a b : ℕ) → c.dec_checked_mul a b ≡ below uint256_modulus (a * b / one)
  pub dec_checked_div_lem : (a b : ℕ) → c.dec_checked_div a b ≡ quotient a b
  pub dec_div_lem : (a b : ℕ) → c.dec_div a b ≡ quotient a b
  pub dec_mul_lem : (a b : ℕ) → c.dec_mul a b ≡ below uint256_modulus (a * b / one)
  pub dec_from_ratio_lem : (a b : ℕ) → c.dec_from_ratio a b ≡ quotient a b
  pub uint128_checked_add_lem :
      (a b : ℕ) → c.uint128_checked_add a b ≡ below uint128_modulus (a + b)
  pub uint128_sub_lem : (a b : ℕ) → c.uint128_sub a b ≡ difference a b
  pub uint128_saturating_sub_lem : (a b : ℕ) → c.uint128_saturating_sub a b ≡ a - b
  pub uint128_multiply_ratio_lem : (a b d : ℕ) → c.uint128_multiply_ratio a b d ≡ ratio a b d
  pub uint64_add_lem : (a b : ℕ) → c.uint64_add a b ≡ below uint64_modulus (a + b)
  pub dec_from_atomics_lem : (a p : ℕ) → c.dec_from_atomics a p ≡ below uint256_modulus (scaled a p)

-- Functions that behave so.
abbrev pub documented : Cosmwasm
documented = record {
  uint128_add = λ a b. below uint128_modulus (a + b);
  uint128_checked_sub = difference;
  dec_checked_add = λ a b. below uint256_modulus (a + b);
  dec_checked_sub = difference;
  dec_checked_mul = λ a b. below uint256_modulus (a * b / one);
  dec_checked_div = quotient;
  dec_div = quotient;
  dec_mul = λ a b. below uint256_modulus (a * b / one);
  dec_from_ratio = quotient;
  uint128_checked_add = λ a b. below uint128_modulus (a + b);
  uint128_sub = λ a b. difference a b;
  uint128_saturating_sub = λ a b. a - b;
  uint128_multiply_ratio = λ a b d. ratio a b d;
  uint64_add = λ a b. below uint64_modulus (a + b);
  dec_from_atomics = λ a p. below uint256_modulus (scaled a p);
}

pub documented-IsDocumented : IsDocumented documented
documented-IsDocumented = record {
  uint128_add_lem = λ a b. refl;
  uint128_checked_sub_lem = λ a b. refl;
  dec_checked_add_lem = λ a b. refl;
  dec_checked_sub_lem = λ a b. refl;
  dec_checked_mul_lem = λ a b. refl;
  dec_checked_div_lem = λ a b. refl;
  dec_div_lem = λ a b. refl;
  dec_mul_lem = λ a b. refl;
  dec_from_ratio_lem = λ a b. refl;
  uint128_checked_add_lem = λ a b. refl;
  uint128_sub_lem = λ a b. refl;
  uint128_saturating_sub_lem = λ a b. refl;
  uint128_multiply_ratio_lem = λ a b d. refl;
  uint64_add_lem = λ a b. refl;
  dec_from_atomics_lem = λ a p. refl;
}

-- The documented behaviour determines the crate: a theorem about `documented` carries over.
pub eq_documented : {c : Cosmwasm} → IsDocumented c → c ≡ documented
eq_documented h = λ i. record {
  uint128_add = fun_ext (λ a. fun_ext (h.uint128_add_lem a)) i;
  uint128_checked_sub = fun_ext (λ a. fun_ext (h.uint128_checked_sub_lem a)) i;
  dec_checked_add = fun_ext (λ a. fun_ext (h.dec_checked_add_lem a)) i;
  dec_checked_sub = fun_ext (λ a. fun_ext (h.dec_checked_sub_lem a)) i;
  dec_checked_mul = fun_ext (λ a. fun_ext (h.dec_checked_mul_lem a)) i;
  dec_checked_div = fun_ext (λ a. fun_ext (h.dec_checked_div_lem a)) i;
  dec_div = fun_ext (λ a. fun_ext (h.dec_div_lem a)) i;
  dec_mul = fun_ext (λ a. fun_ext (h.dec_mul_lem a)) i;
  dec_from_ratio = fun_ext (λ a. fun_ext (h.dec_from_ratio_lem a)) i;
  uint128_checked_add = fun_ext (λ a. fun_ext (h.uint128_checked_add_lem a)) i;
  uint128_sub = fun_ext (λ a. fun_ext (h.uint128_sub_lem a)) i;
  uint128_saturating_sub = fun_ext (λ a. fun_ext (h.uint128_saturating_sub_lem a)) i;
  uint128_multiply_ratio =
      fun_ext (λ a. fun_ext (λ b. fun_ext (h.uint128_multiply_ratio_lem a b))) i;
  uint64_add = fun_ext (λ a. fun_ext (h.uint64_add_lem a)) i;
  dec_from_atomics = fun_ext (λ a. fun_ext (h.dec_from_atomics_lem a)) i;
}
