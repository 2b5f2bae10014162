-- ===== src/Liquidity/Linear.antt =====
-- The linear unstaking of xLP: how much `calculate_unstaked_lp` frees, in
-- contracts/market/src/state/liquidity.rs.
use levana_perps.Liquidity.Books.{IsLinear}
use levana_perps.Cosmwasm.{uint256_modulus, eq_documented, Cosmwasm, IsDocumented, one, documented}
use native.Mathlib.Nat.{mul-le-mul, le_refl, div-mul-le_self}
use native.Mathlib.Decide.{dec_lt}
use levana_perps.Liquidity.Keeping.{calculate_unstaked_lp}
use levana_perps.Liquidity.State.{Env, UnstakingXlp}
use levana_perps.Prelude.{◌⊎◌, inl, inr, ◌/◌, ok, ℕ, ◌+◌, ◌-◌, ◌*◌, ◌≤◌, ◌<◌, ◌≡◌, arith}

-- Rounding the ratio and then the product down frees no more than the share of the time.
floor_twice : (s d x q n : ℕ) → q * (d * one) ≤ s * one * one → n * one ≤ q * x → n * d ≤ s * x
floor_twice s d x q n h k =
    let a : q * d ≤ s * one = omega arith in
    let b : q * d * x ≤ s * one * x = mul-le-mul a (le_refl x) in
    let e : n * one * d ≤ q * x * d = mul-le-mul k (le_refl d) in omega arith

-- The two cases of the calculation, as the code computes them.
abbrev ratio_of : ℕ → ℕ → ℕ
ratio_of since duration = since * one / 1 * one / (duration * one / 1)

documented_full :
    (e : Env) (u : UnstakingXlp) {n : ℕ}
    → u.unstake_duration ≤ e.now - u.unstake_started
    → calculate_unstaked_lp ⦃c = documented⦄ e u ≡ ok n
    → n + u.collected ≡ u.xlp_amount
unfolding calculate_unstaked_lp
documented_full e u late r = ground arith

documented_part :
    (e : Env) (u : UnstakingXlp) {n : ℕ}
    → e.now - u.unstake_started < u.unstake_duration
    → calculate_unstaked_lp ⦃c = documented⦄ e u ≡ ok n
    → (u.last_collected ≤ e.now)
      × (n ≡ ratio_of (e.now - u.last_collected) u.unstake_duration * u.xlp_amount / one)
unfolding calculate_unstaked_lp
documented_part e u early r = ground arith

ratio_bound :
    (since duration : ℕ)
    → since < duration
    → ratio_of since duration * (duration * one) ≤ since * one * one
ratio_bound since duration h =
    let plain : duration * one / 1 ≡ duration * one = omega arith in
    let same : since * one / 1 ≡ since * one = omega arith in
    rw (plain, same) (div-mul-le_self (since * one * one) (duration * one))

abbrev pub collected_at : ℕ → ℕ → UnstakingXlp → UnstakingXlp
collected_at now n u = record u { collected = u.collected + n; last_collected = now }

cancel : (a x d : ℕ) → a * d < x * d → a < x
cancel a x d h = elim (dec_lt a x) [
  | yes less ↦ less
  | no more ↦
      let more_or_same : x ≤ a = omega arith in
      let product : x * d ≤ a * d = mul-le-mul more_or_same (le_refl d) in absurd (omega arith)
]

pub times_lt : (x a b : ℕ) → 0 < x → a < b → x * a < x * b
times_lt x a b h k = grind arith

-- The two facts of the calculation in the linear case: what is freed stays below the whole, and the
-- new entry is linear again.
early_share :
    (now n : ℕ) (u : UnstakingXlp)
    → IsLinear u
    → u.last_collected ≤ now
    → now - u.unstake_started < u.unstake_duration
    → n * u.unstake_duration ≤ (now - u.last_collected) * u.xlp_amount
    → (u.collected + n < u.xlp_amount) × IsLinear (collected_at now n u)
early_share now n u l after early freed =
    let sum : (u.collected + n) * u.unstake_duration ≤ u.xlp_amount * (now - u.unstake_started) =
      total in
    let less : u.xlp_amount * (now - u.unstake_started) < u.xlp_amount * u.unstake_duration =
      grows in
    let below_all : u.collected + n < u.xlp_amount =
      cancel (u.collected + n) u.xlp_amount u.unstake_duration (omega arith) in
    (below_all, record { open_yet = below_all; begun = omega arith; share = sum })
  where
    split :
        now - u.unstake_started ≡ (u.last_collected - u.unstake_started) + (now - u.last_collected)
    split = omega (arith, l.begun)

    total : (u.collected + n) * u.unstake_duration ≤ u.xlp_amount * (now - u.unstake_started)
    total = rw split (omega (arith, l.share, freed))

    grows : u.xlp_amount * (now - u.unstake_started) < u.xlp_amount * u.unstake_duration
    grows = times_lt u.xlp_amount _ _ (omega (arith, l.open_yet)) early

documented_all :
    (e : Env) (u : UnstakingXlp)
    → u.collected ≤ u.xlp_amount
    → u.xlp_amount < uint256_modulus
    → u.unstake_started + u.unstake_duration ≤ e.now
    → calculate_unstaked_lp ⦃c = documented⦄ e u ≡ ok (u.xlp_amount - u.collected)
unfolding calculate_unstaked_lp
documented_all e u h k late = ground arith

module _ ⦃c : Cosmwasm⦄ (doc : IsDocumented c) where
  full_lem :
      (e : Env) (u : UnstakingXlp) {n : ℕ}
      → u.unstake_duration ≤ e.now - u.unstake_started
      → calculate_unstaked_lp e u ≡ ok n
      → n + u.collected ≡ u.xlp_amount
  full_lem = rw (eq_documented doc) documented_full

  part_lem :
      (e : Env) (u : UnstakingXlp) {n : ℕ}
      → e.now - u.unstake_started < u.unstake_duration
      → calculate_unstaked_lp e u ≡ ok n
      → (u.last_collected ≤ e.now)
        × (n ≡ ratio_of (e.now - u.last_collected) u.unstake_duration * u.xlp_amount / one)
  part_lem = rw (eq_documented doc) documented_part

  pub unstaked_share :
      (e : Env) (u : UnstakingXlp) {n : ℕ}
      → IsLinear u
      → calculate_unstaked_lp e u ≡ ok n
      → (u.collected + n ≤ u.xlp_amount)
        × (u.collected + n < u.xlp_amount → IsLinear (collected_at e.now n u))
  unstaked_share e u {n} l r = elim (dec_lt (e.now - u.unstake_started) u.unstake_duration) [
    | yes early ↦
        let (after, value) = part_lem e u early r in
        let since = e.now - u.last_collected in
        let short : since < u.unstake_duration = omega (arith, l.begun) in
        let q = ratio_of since u.unstake_duration in
        let freed : n * u.unstake_duration ≤ since * u.xlp_amount =
          floor_twice since u.unstake_duration u.xlp_amount q n
            (ratio_bound since u.unstake_duration short) (omega arith) in
        let (less, linear) = early_share e.now n u l after early freed in (omega arith, λ _. linear)
    | no late ↦
        let all = full_lem e u (omega arith) r in (omega arith, λ less. absurd (omega arith))
  ]

  -- Where an unstaking has collected less than the whole and at most its share of the time, a
  -- calculation that succeeds frees no more than is left: either it is then complete, or after the
  -- collection it has again collected less than the whole and at most its share of the time.
  pub unstaked_bound :
      (e : Env) (u : UnstakingXlp) {n : ℕ}
      → IsLinear u
      → calculate_unstaked_lp e u ≡ ok n
      → (u.collected + n ≡ u.xlp_amount) ⊎ IsLinear (collected_at e.now n u)
  unstaked_bound e u {n} l r =
      let (bound, linear) = unstaked_share e u l r in
      elim (dec_lt (u.collected + n) u.xlp_amount) [
        | yes less ↦ inr (linear less)
        | no more ↦ inl (omega arith)
      ]

  -- Once the unstaking period is over, the calculation succeeds and frees all that is left, for an
  -- amount below 2^256 atomics of which no more was collected.
  pub unstaked_all :
      (e : Env) (u : UnstakingXlp)
      → u.collected ≤ u.xlp_amount
      → u.xlp_amount < uint256_modulus
      → u.unstake_started + u.unstake_duration ≤ e.now
      → calculate_unstaked_lp e u ≡ ok (u.xlp_amount - u.collected)
  unstaked_all = rw (eq_documented doc) documented_all
