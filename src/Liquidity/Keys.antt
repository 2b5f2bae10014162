-- ===== src/Liquidity/Keys.antt =====
-- The keys of a storage map after a bound, for the reset of
-- contracts/market/src/state/liquidity/stats.rs.
use levana_perps.Prelude.Dict.{size}
use levana_perps.Liquidity.Resetting.{next_key, is_after}
use levana_perps.Liquidity.State.{AddrStats}
use levana_perps.Prelude.{
  Option-cases, inl, inr, if◌then◌else◌, ℕ, ◌+◌, ◌≤◌, ◌<◌, ◌≡◌, refl, ◌≢◌, true, Option, none, some,
  [], ◌∷◌, arith,
}
use levana_perps.Prelude.Dict.{may_load, Dict, save, remove}
use levana_perps.Cw20.Supply.{held}

-- How many entries come after a bound.
abbrev pub remaining : Option ℕ → Dict AddrStats → ℕ
remaining bound [] = 0
remaining bound ((key, a) ∷ d) = (if is_after bound key then 1 else 0) + remaining bound d

pub next_key-none :
    (bound : Option ℕ) (d : Dict AddrStats) (k : ℕ)
    → next_key bound d ≡ none
    → is_after bound k ≡ true
    → may_load k d ≡ none
unfolding next_key
next_key-none bound [] k h after = refl
next_key-none bound ((key, a) ∷ d) k h after = ground (arith, next_key-none bound d k)

-- The first key comes after the bound, it is in the map, and no key lies in between.
pub first-after :
    (bound : Option ℕ) (d : Dict AddrStats) {addr : ℕ}
    → next_key bound d ≡ some addr
    → is_after bound addr ≡ true
unfolding next_key
first-after bound [] h = cc
first-after bound ((key, a) ∷ d) {addr} h = elim (Option-cases (next_key bound d)) [
  | inl last ↦ ground (arith, rw last at h)
  | inr (j, e) ↦ ground (arith, rw e at h, first-after bound d e)
]

pub first-held :
    (bound : Option ℕ) (d : Dict AddrStats) {addr : ℕ}
    → next_key bound d ≡ some addr
    → may_load addr d ≢ none
unfolding next_key
first-held bound [] h = cc
first-held bound ((key, a) ∷ d) {addr} h = elim (Option-cases (next_key bound d)) [
  | inl last ↦ ground (arith, rw last at h)
  | inr (j, e) ↦ ground (arith, rw e at h, first-held bound d e)
]

pub first-least :
    (bound : Option ℕ) (d : Dict AddrStats) {addr : ℕ} (k : ℕ)
    → next_key bound d ≡ some addr
    → is_after bound k ≡ true
    → k < addr
    → may_load k d ≡ none
unfolding next_key
first-least bound [] k h after before = refl
first-least bound ((key, a) ∷ d) {addr} k h after before = elim (Option-cases (next_key bound d)) [
  | inl last ↦ ground (arith, rw last at h, next_key-none bound d k last after)
  | inr (j, e) ↦ ground (arith, rw e at h, first-least bound d k e after)
]

-- A write at the bound does not count.
pub remaining-save :
    (k : ℕ) (a : AddrStats) (d : Dict AddrStats)
    → remaining (some k) (save k a d) ≡ remaining (some k) d
remaining-save k a [] = ground arith
remaining-save k a (e ∷ d) = ground (arith, remaining-save k a d)

pub remaining-remove :
    (k : ℕ) (d : Dict AddrStats) → remaining (some k) (remove k d) ≡ remaining (some k) d
remaining-remove k [] = refl
remaining-remove k (e ∷ d) = ground (arith, remaining-remove k d)

-- Past the first key there is one entry less.
remaining-le :
    (bound : Option ℕ) (k : ℕ) (d : Dict AddrStats)
    → is_after bound k ≡ true
    → remaining (some k) d ≤ remaining bound d
remaining-le bound k [] h = omega arith
remaining-le none k (e ∷ d) h = ground (arith, remaining-le none k d h)
remaining-le (some b) k (e ∷ d) h = ground (arith, remaining-le (some b) k d h)

pub remaining-next :
    (bound : Option ℕ) (k : ℕ) (d : Dict AddrStats)
    → is_after bound k ≡ true
    → may_load k d ≢ none
    → remaining (some k) d < remaining bound d
remaining-next bound k [] h held = absurd (held refl)
remaining-next bound k (e ∷ d) h held =
    ground (arith, held, remaining-next bound k d h, remaining-le bound k d h)

-- No more entries than there are.
pub remaining-size : (bound : Option ℕ) (d : Dict AddrStats) → remaining bound d ≤ size d
remaining-size bound [] = omega arith
remaining-size bound (e ∷ d) = ground (arith, remaining-size bound d)
