-- ===== src/Prelude/Dict.antt =====
-- A storage map from addresses, which the code only compares, to values: an association list that
-- holds no key twice. `save`, `remove` and `may_load` are those of a storage map.
use mathlib.Core.Path.{◌≡◌, refl}
use mathlib.Core.Logic.{◌≢◌}
use mathlib.Core.Option.{Option, none, some}
use mathlib.Core.List.{List, [], ◌∷◌}
use native.Mathlib.Omega.{arith}
use Prim.Native.Nat.{ℕ, ◌+◌, ◌≤◌}
use levana_perps.Prelude.Tests.{◌==◌, if◌then◌else◌}

abbrev pub Dict {ℓ} : Type ℓ → Type ℓ
Dict V = List (ℕ × V)

module _ {ℓ} {V : Type ℓ} where
  abbrev pub may_load : ℕ → Dict V → Option V
  may_load k [] = none
  may_load k ((j, v) ∷ d) = if k == j then some v else may_load k d

  -- `len` and `count`.
  abbrev pub size : Dict V → ℕ
  size [] = 0
  size (e ∷ d) = 1 + size d

  abbrev pub save : ℕ → V → Dict V → Dict V
  save k v [] = (k, v) ∷ []
  save k v (e ∷ d) = if k == e.0 then (k, v) ∷ d else e ∷ save k v d

  abbrev pub remove : ℕ → Dict V → Dict V
  remove k [] = []
  remove k (e ∷ d) = if k == e.0 then d else e ∷ remove k d

  -- No key is held twice.
  abbrev pub IsDict : Dict V → Type ℓ
  IsDict [] = Unit
  IsDict ((k, v) ∷ d) = (may_load k d ≡ none) × IsDict d

module _ {V : Type 0} where
  pub may_load-save :
      (j k : ℕ) (v : V) (d : Dict V)
      → may_load j (save k v d) ≡ (if j == k then some v else may_load j d)
  may_load-save j k v [] = ground arith
  may_load-save j k v (e ∷ d) = ground (arith, may_load-save j k v d)

  pub may_load-remove_ne : (j k : ℕ) (d : Dict V) → j ≢ k → may_load j (remove k d) ≡ may_load j d
  may_load-remove_ne j k [] h = refl
  may_load-remove_ne j k (e ∷ d) h = ground (arith, may_load-remove_ne j k d h)

  pub may_load-remove :
      (k j : ℕ) (d : Dict V)
      → IsDict d
      → may_load j (remove k d) ≡ (if j == k then none else may_load j d)
  may_load-remove k j [] h = ground arith
  may_load-remove k j (e ∷ d) h = ground (arith, may_load-remove k j d h.1)

  pub save-IsDict : (k : ℕ) (v : V) (d : Dict V) → IsDict d → IsDict (save k v d)
  save-IsDict k v [] h = (refl, tt)
  save-IsDict k v (e ∷ d) h = ground (arith, save-IsDict k v d h.1, may_load-save e.0 k v d)

  pub remove-IsDict : (k : ℕ) (d : Dict V) → IsDict d → IsDict (remove k d)
  remove-IsDict k [] h = tt
  remove-IsDict k (e ∷ d) h = ground (arith, remove-IsDict k d h.1, may_load-remove_ne e.0 k d)

module _ {V : Type 0} (weigh : V → ℕ) where
  -- The sum of a quantity over all entries.
  abbrev pub sum : Dict V → ℕ
  sum [] = 0
  sum ((k, v) ∷ d) = weigh v + sum d

  abbrev pub weight : Option V → ℕ
  weight none = 0
  weight (some v) = weigh v

  pub sum-save :
      (k : ℕ) (v : V) (d : Dict V) → sum (save k v d) + weight (may_load k d) ≡ sum d + weigh v
  sum-save k v [] = omega arith
  sum-save k v (e ∷ d) = ground (arith, sum-save k v d)

  pub sum-remove : (k : ℕ) (d : Dict V) → sum (remove k d) + weight (may_load k d) ≡ sum d
  sum-remove k [] = omega arith
  sum-remove k (e ∷ d) = ground (arith, sum-remove k d)

  pub weight-le-sum : (k : ℕ) (d : Dict V) → weight (may_load k d) ≤ sum d
  weight-le-sum k [] = omega arith
  weight-le-sum k (e ∷ d) = ground (arith, weight-le-sum k d)
