-- ===== src/Vault/Paying.antt =====
-- `execute_process_withdrawal` of contracts/vault/src/execute.rs: which requests it pays.
use levana_perps.Prelude.Dict.{size}
use levana_perps.Cosmwasm.{Cosmwasm, IsDocumented, eq_documented, uint128_modulus, documented}
use levana_perps.Vault.Queue.{IsQueue, asked}
use levana_perps.Prelude.{
  false, some, unwrap_or, subst, ltb→lt, ltb, ltb→ge, Bool-cases, ok, Result, ℕ, zero, suc, ◌+◌,
  ◌≤◌, ◌<◌, ◌≡◌, refl, ap, ◌⊎◌, inl, inr, [], ◌∷◌, ◌++◌, arith,
}
use levana_perps.Prelude.Dict.{may_load, Dict}
use levana_perps.Vault.Execute.{payments, execute_process_withdrawal, settle_pending, take_fitting}
use levana_perps.Vault.Books.{
  remove_processed_lem, asked-split, rest-IsQueue, owns, unmark-marked, unmark, IsSound,
}
use levana_perps.Vault.State.{to_string, Chain, Vault, WithdrawalRequest}

-- Why a payment that started at `processed` stopped before the rest of the queue.
abbrev pub IsStopped : ℕ → ℕ → ℕ → Dict WithdrawalRequest → Dict WithdrawalRequest → Type 0
IsStopped limit vault_balance processed taken [] = Unit {0}
IsStopped limit vault_balance processed taken ((id, r) ∷ rest) =
    (size taken ≡ limit) ⊎ (vault_balance < processed + asked taken + r.amount)

-- The entries taken of a queue are a prefix, within the limit and the vault_balance, and no longer one is.
pub record Fits (limit vault_balance processed : ℕ) (queue taken rest : Dict WithdrawalRequest)
    : Type 0 where
  pub split : queue ≡ taken ++ rest
  pub few : size taken ≤ limit
  pub covered : processed + asked taken ≤ vault_balance
  pub stopped : IsStopped limit vault_balance processed taken rest

-- What the loop returns for the entries that it takes.
abbrev taking : ℕ → Dict WithdrawalRequest → Result (ℕ × Dict WithdrawalRequest)
taking processed taken = ok (processed + asked taken, taken)

Fits-nothing :
    (limit vault_balance processed : ℕ) (queue : Dict WithdrawalRequest)
    → processed ≤ vault_balance
    → IsStopped limit vault_balance processed [] queue
    → Fits limit vault_balance processed queue [] queue
Fits-nothing limit vault_balance processed queue some_left stop = record {
  split = refl;
  few = omega arith;
  covered = omega arith;
  stopped = stop;
}

IsStopped-cons :
    (limit vault_balance processed id : ℕ) (r : WithdrawalRequest)
    (taken rest : Dict WithdrawalRequest)
    → IsStopped limit vault_balance (processed + r.amount) taken rest
    → IsStopped (suc limit) vault_balance processed ((id, r) ∷ taken) rest
IsStopped-cons limit vault_balance processed id r taken [] h = tt
IsStopped-cons limit vault_balance processed id r taken ((k, next) ∷ rest) h = ground arith

Fits-cons :
    (limit vault_balance processed id : ℕ) (r : WithdrawalRequest)
    (queue taken rest : Dict WithdrawalRequest)
    → Fits limit vault_balance (processed + r.amount) queue taken rest
    → Fits (suc limit) vault_balance processed ((id, r) ∷ queue) ((id, r) ∷ taken) rest
Fits-cons limit vault_balance processed id r queue taken rest f = record {
  split = ap (λ q. (id, r) ∷ q) f.split;
  few = omega (arith, f.few);
  covered = omega (arith, f.covered);
  stopped = IsStopped-cons limit vault_balance processed id r taken rest f.stopped;
}

at_limit :
    (vault_balance processed : ℕ) (q : Dict WithdrawalRequest)
    → IsStopped 0 vault_balance processed [] q
at_limit vault_balance processed [] = tt
at_limit vault_balance processed (e ∷ q) = inl refl

documented_take :
    (limit vault_balance processed : ℕ) (queue : Dict WithdrawalRequest)
    → processed ≤ vault_balance
    → processed + asked queue < uint128_modulus
    → (taken rest : Dict WithdrawalRequest) × (take_fitting ⦃c = documented⦄ limit vault_balance
          processed queue
        ≡ taking processed taken)
      × Fits limit vault_balance processed queue taken rest
unfolding take_fitting
documented_take zero vault_balance processed queue some_left fits = (
  [],
  queue,
  ground arith,
  Fits-nothing 0 vault_balance processed queue some_left (at_limit vault_balance processed queue),
)
documented_take (suc n) vault_balance processed [] some_left fits =
    ([], [], ground arith, Fits-nothing (suc n) vault_balance processed [] some_left tt)
documented_take (suc n) vault_balance processed ((id, r) ∷ queue) some_left fits =
    elim (Bool-cases (ltb vault_balance (processed + r.amount))) [
      | inl over ↦ (
        [],
        (id, r) ∷ queue,
        ground (arith, over),
        Fits-nothing (suc n) vault_balance processed ((id, r) ∷ queue) some_left
            (inr (omega (arith, ltb→lt _ _ over))),
      )
      | inr under ↦
          let done =
            documented_take n vault_balance (processed + r.amount) queue (ltb→ge _ _ under)
              (omega arith) in
          (
            (id, r) ∷ done.0,
            done.1,
            ground (arith, under, done.2),
            Fits-cons n vault_balance processed id r queue done.0 done.1 done.3,
          )
    ]

-- What the payment of the entries leaves.
abbrev pub paid_out : Dict WithdrawalRequest → Dict WithdrawalRequest → Vault → Vault
paid_out taken rest v = record v {
  withdrawal_queue = rest;
  user_withdrawals = unmark taken v.user_withdrawals;
  total_pending_withdrawals = asked rest;
}

documented_settle :
    (taken rest : Dict WithdrawalRequest) (v : Vault)
    → asked taken + asked rest ≡ v.total_pending_withdrawals
    → settle_pending ⦃c = documented⦄
        (0 + asked taken)
        (record v { withdrawal_queue = rest; user_withdrawals = unmark taken v.user_withdrawals })
      ≡ ok (paid_out taken rest v)
unfolding settle_pending
documented_settle taken rest v h = ground (arith, h)

pub paid_out-IsSound :
    (taken rest : Dict WithdrawalRequest) (v : Vault)
    → v.withdrawal_queue ≡ taken ++ rest
    → IsSound v
    → IsSound (paid_out taken rest v)
paid_out-IsSound taken rest v split s =
    let high = unwrap_or v.queue_id 0 in
    let ordered : IsQueue 0 high (taken ++ rest) = subst (IsQueue 0 high) split s.ordered in
    record {
      distinct = s.distinct;
      total = s.total;
      ordered = rest-IsQueue 0 high taken rest ordered;
      pending = refl;
      fits = omega (arith, s.fits, s.pending, ap asked split, asked-split taken rest);
      marked = unmark-marked 0 high taken rest v.user_withdrawals ordered (
          subst (λ q. (user k : ℕ) → v.user_withdrawals user k ≡ owns user (may_load k q)) split
            s.marked);
    }

pub documented_process :
    (e : Chain) (v : Vault) (vault_balance : ℕ)
    → IsSound v
    → v.config.paused ≡ false
    → e.query_balance (to_string v.config.usdc_denom) ≡ some vault_balance
    → (taken rest : Dict WithdrawalRequest) × (execute_process_withdrawal ⦃c = documented⦄ e v
        ≡ ok (paid_out taken rest v, payments (to_string v.config.usdc_denom) taken))
      × Fits 20 vault_balance 0 v.withdrawal_queue taken rest
      × IsSound (paid_out taken rest v)
unfolding execute_process_withdrawal
documented_process e v vault_balance s running answer =
    let done =
      documented_take 20 vault_balance 0 v.withdrawal_queue (omega arith)
        (omega (arith, s.fits, s.pending)) in
    let split = done.3.split in
    (
      done.0,
      done.1,
      rw
          (
            answer,
            done.2,
            remove_processed_lem done.0 done.1 v split,
            documented_settle done.0 done.1 v
                (omega (arith, s.pending, ap asked split, asked-split done.0 done.1)),
            running,
          )
          refl,
      done.3,
      paid_out-IsSound done.0 done.1 v split s,
    )

module _ ⦃c : Cosmwasm⦄ (doc : IsDocumented c) where
  -- In a vault whose books are in order and that is not paused, where the chain answers the query of
  -- the balance, processing the withdrawals succeeds. It takes the first requests of the queue, at
  -- most 20 and for no more than the balance, and stops early only at a request that the rest of the
  -- balance does not cover; it sends each of them its amount, in the order of the queue, leaves
  -- exactly the others, and the books are in order again.
  pub execute_process_withdrawal_lem :
      (e : Chain) (v : Vault) (vault_balance : ℕ)
      → IsSound v
      → v.config.paused ≡ false
      → e.query_balance (to_string v.config.usdc_denom) ≡ some vault_balance
      → (taken rest : Dict WithdrawalRequest) × (execute_process_withdrawal e v
          ≡ ok (paid_out taken rest v, payments (to_string v.config.usdc_denom) taken))
        × Fits 20 vault_balance 0 v.withdrawal_queue taken rest
        × IsSound (paid_out taken rest v)
  execute_process_withdrawal_lem = rw (eq_documented doc) documented_process
