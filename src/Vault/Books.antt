-- ===== src/Vault/Books.antt =====
-- The books of the vault: its shares, and its queue with the marks of the users, under the steps of
-- contracts/vault/src/execute.rs.
use levana_perps.Cosmwasm.{uint128_modulus}
use levana_perps.Prelude.{
  Option-cases, unwrap_or, ◌==◌, ℕ, ◌+◌, ◌<◌, ◌≡◌, refl, inl, inr, Bool, false, Option, none, some,
  [], ◌∷◌, ◌++◌, arith,
}
use levana_perps.Prelude.Dict.{
  remove, sum, save, IsDict, save-IsDict, sum-save, weight, may_load, Dict,
}
use levana_perps.Vault.State.{Vault, Config, WithdrawalRequest, lp_balance, mark}
use levana_perps.Vault.Execute.{remove_processed}
use levana_perps.Cw20.State.{balance}
use levana_perps.Vault.Queue.{IsQueue-lower, asked, IsQueue, before_first}

-- Whether the request under a key is the user's.
abbrev pub owns : ℕ → Option WithdrawalRequest → Bool
owns user none = false
owns user (some r) = user == r.user

abbrev pub shares : Dict ℕ → ℕ
shares = sum (λ n. n)

-- The books are in order: the shares add up to the supply, the requests to the pending withdrawals,
-- the keys of the queue grow below the next key, and a request is marked as its user's alone.
pub record IsSound (v : Vault) : Type 0 where
  pub distinct : IsDict v.lp_balances
  pub total : shares v.lp_balances ≡ v.total_lp_supply
  pub ordered : IsQueue 0 (unwrap_or v.queue_id 0) v.withdrawal_queue
  pub pending : asked v.withdrawal_queue ≡ v.total_pending_withdrawals
  pub fits : v.total_pending_withdrawals < uint128_modulus
  pub marked :
      (user id : ℕ) → v.user_withdrawals user id ≡ owns user (may_load id v.withdrawal_queue)

pub or_zero-weight :
    (k : ℕ) (d : Dict ℕ) → weight (λ n. n) (may_load k d) ≡ unwrap_or (may_load k d) 0
or_zero-weight k d = elim (Option-cases (may_load k d)) [
  | inl absent ↦ rw absent refl
  | inr (n, e) ↦ rw e refl
]

pub lp_balance-weight :
    (user : ℕ) (v : Vault) → weight (λ n. n) (may_load user v.lp_balances) ≡ lp_balance v user
lp_balance-weight user v = or_zero-weight user v.lp_balances

-- A balance and the supply that change by the same amount.
pub rebalanced :
    (user balance supply : ℕ) (v : Vault)
    → IsSound v
    → balance + v.total_lp_supply ≡ lp_balance v user + supply
    → IsSound (record v { lp_balances = save user balance v.lp_balances; total_lp_supply = supply })
rebalanced user balance supply v s h = record {
  distinct = save-IsDict user balance v.lp_balances s.distinct;
  total =
      omega
        (arith, h, s.total, sum-save (λ n. n) user balance v.lp_balances, lp_balance-weight user v);
  ordered = s.ordered;
  pending = s.pending;
  fits = s.fits;
  marked = s.marked;
}

-- What the vault lends and how it is set up is not in the books.
pub configured-IsSound :
    (config : Config) (allocations : Dict ℕ) (v : Vault)
    → IsSound v
    → IsSound (record v { config = config; market_allocations = allocations })
configured-IsSound config allocations v s = record {
  distinct = s.distinct;
  total = s.total;
  ordered = s.ordered;
  pending = s.pending;
  fits = s.fits;
  marked = s.marked;
}

-- The marks without those of some entries.
abbrev pub unmark : Dict WithdrawalRequest → (ℕ → ℕ → Bool) → ℕ → ℕ → Bool
unmark [] marks = marks
unmark ((id, r) ∷ rest) marks = unmark rest (mark r.user id false marks)

pub remove_processed_lem :
    (taken rest : Dict WithdrawalRequest) (v : Vault)
    → v.withdrawal_queue ≡ taken ++ rest
    → remove_processed taken v
      ≡ record v { withdrawal_queue = rest; user_withdrawals = unmark taken v.user_withdrawals }
unfolding remove_processed
remove_processed_lem [] rest v h = rw (← h) refl
remove_processed_lem ((id, r) ∷ taken) rest v h =
    rw
      (remove_processed_lem taken rest
        (record v {
          withdrawal_queue = remove id v.withdrawal_queue;
          user_withdrawals = mark r.user id false v.user_withdrawals;
        })
        (rw h (ground arith)))
      refl

abbrev AreMarked : (ℕ → ℕ → Bool) → Dict WithdrawalRequest → Type 0
AreMarked marks q = (user k : ℕ) → marks user k ≡ owns user (may_load k q)

unmark_first :
    (low high id : ℕ) (r : WithdrawalRequest) (q : Dict WithdrawalRequest) (marks : ℕ → ℕ → Bool)
    → IsQueue low high ((id, r) ∷ q)
    → AreMarked marks ((id, r) ∷ q)
    → AreMarked (mark r.user id false marks) q
unmark_first low high id r q marks h m user k =
    ground (arith, m user k, before_first (id + 1) high id q h.2)

pub unmark-marked :
    (low high : ℕ) (taken rest : Dict WithdrawalRequest) (marks : ℕ → ℕ → Bool)
    → IsQueue low high (taken ++ rest)
    → AreMarked marks (taken ++ rest)
    → AreMarked (unmark taken marks) rest
unmark-marked low high [] rest marks h m = m
unmark-marked low high ((id, r) ∷ taken) rest marks h m =
    unmark-marked (id + 1) high taken rest (mark r.user id false marks) h.2
      (unmark_first low high id r (taken ++ rest) marks h m)

pub rest-IsQueue :
    (low high : ℕ) (taken rest : Dict WithdrawalRequest)
    → IsQueue low high (taken ++ rest)
    → IsQueue low high rest
rest-IsQueue low high [] rest h = h
rest-IsQueue low high ((id, r) ∷ taken) rest h =
    IsQueue-lower (id + 1) low high rest (omega (arith, h.0))
      (rest-IsQueue (id + 1) high taken rest h.2)

pub asked-split :
    (taken rest : Dict WithdrawalRequest) → asked (taken ++ rest) ≡ asked taken + asked rest
asked-split [] rest = omega arith
asked-split ((id, r) ∷ taken) rest = omega (arith, asked-split taken rest)
