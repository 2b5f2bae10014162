-- ===== src/Vault/Queue.antt =====
-- The withdrawal queue of contracts/vault/src/state.rs under the writes of
-- contracts/vault/src/execute.rs.
use levana_perps.Prelude.{
  ◌==◌, if◌then◌else◌, ℕ, ◌+◌, ◌≤◌, ◌<◌, ◌≡◌, refl, none, some, [], ◌∷◌, ◌++◌, arith,
}
use levana_perps.Prelude.Dict.{may_load, sum, Dict}
use levana_perps.Vault.State.{save_request, WithdrawalRequest}

abbrev pub amount_of : WithdrawalRequest → ℕ
amount_of r = r.amount

-- What the queue asks for.
abbrev pub asked : Dict WithdrawalRequest → ℕ
asked q = sum amount_of q

-- The keys grow strictly, from `low` on and below `high`, and every request asks for something.
abbrev pub IsQueue : ℕ → ℕ → Dict WithdrawalRequest → Type 0
IsQueue low high [] = low ≤ high
IsQueue low high ((id, r) ∷ q) = (low ≤ id) × (0 < r.amount) × IsQueue (id + 1) high q

IsQueue-bounds : (low high : ℕ) (q : Dict WithdrawalRequest) → IsQueue low high q → low ≤ high
IsQueue-bounds low high [] h = h
IsQueue-bounds low high ((id, r) ∷ q) h = omega (arith, IsQueue-bounds (id + 1) high q h.2, h.0)

pub IsQueue-lower :
    (low lower high : ℕ) (q : Dict WithdrawalRequest)
    → lower ≤ low
    → IsQueue low high q
    → IsQueue lower high q
IsQueue-lower low lower high [] le h = omega arith
IsQueue-lower low lower high ((id, r) ∷ q) le h = (omega (arith, h.0), h.1, h.2)

-- A request under the next key is put at the end.
pub save_request_last :
    (low high : ℕ) (q : Dict WithdrawalRequest) (r : WithdrawalRequest)
    → IsQueue low high q
    → save_request high r q ≡ q ++ ((high, r) ∷ [])
unfolding save_request
save_request_last low high [] r h = refl
save_request_last low high ((id, old) ∷ q) r h =
    ground (arith, IsQueue-bounds (id + 1) high q h.2, save_request_last (id + 1) high q r h.2)

pub enqueue-IsQueue :
    (low high : ℕ) (q : Dict WithdrawalRequest) (r : WithdrawalRequest)
    → 0 < r.amount
    → IsQueue low high q
    → IsQueue low (high + 1) (q ++ ((high, r) ∷ []))
enqueue-IsQueue low high [] r some_asked h = (h, some_asked, omega arith)
enqueue-IsQueue low high ((id, old) ∷ q) r some_asked h =
    (h.0, h.1, enqueue-IsQueue (id + 1) high q r some_asked h.2)

pub enqueue-asked :
    (q : Dict WithdrawalRequest) (id : ℕ) (r : WithdrawalRequest)
    → asked (q ++ ((id, r) ∷ [])) ≡ asked q + r.amount
enqueue-asked [] id r = omega arith
enqueue-asked ((k, old) ∷ q) id r = omega (arith, enqueue-asked q id r)

-- No key below the first is in the queue.
pub before_first :
    (low high k : ℕ) (q : Dict WithdrawalRequest)
    → IsQueue low high q
    → k < low
    → may_load k q ≡ none
before_first low high k [] h early = refl
before_first low high k ((id, r) ∷ q) h early =
    ground (arith, h.0, before_first (id + 1) high k q h.2)

pub enqueue-may_load :
    (low high k : ℕ) (q : Dict WithdrawalRequest) (r : WithdrawalRequest)
    → IsQueue low high q
    → may_load k (q ++ ((high, r) ∷ [])) ≡ (if k == high then some r else may_load k q)
enqueue-may_load low high k [] r h = refl
enqueue-may_load low high k ((id, old) ∷ q) r h =
    ground (arith, enqueue-may_load (id + 1) high k q r h.2, IsQueue-bounds (id + 1) high q h.2)

-- No key from the next one on is in the queue.
pub above_last :
    (low high k : ℕ) (q : Dict WithdrawalRequest)
    → IsQueue low high q
    → high ≤ k
    → may_load k q ≡ none
above_last low high k [] h late = refl
above_last low high k ((id, r) ∷ q) h late =
    ground (arith, IsQueue-bounds (id + 1) high q h.2, above_last (id + 1) high k q h.2)
