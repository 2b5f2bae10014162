-- ===== src/Vault/Requests.antt =====
-- `execute_request_withdrawal` of contracts/vault/src/execute.rs.
use levana_perps.Cosmwasm.{
  Cosmwasm, eq_documented, IsDocumented, documented, uint128_modulus, uint64_modulus,
}
use levana_perps.Prelude.{
  Bool-cases, ltb→lt, Ensures, Ensures-if, inl, inr, ltb, leb, if◌then◌else◌, ◌==◌, unwrap_or,
  panic, underflow, ok, overflow, failed, err, ℕ, ◌+◌, ◌-◌, ◌≤◌, ◌<◌, ◌≡◌, true, false, not, none,
  some, [], ◌∷◌, ◌++◌, arith,
}
use levana_perps.Prelude.Dict.{may_load, save, weight-le-sum}
use levana_perps.Vault.State.{lp_balance, Vault, Info, WithdrawalRequest, mark}
use levana_perps.Vault.Common.{get_and_increment_queue_id, check_not_paused}
use levana_perps.Vault.Execute.{execute_request_withdrawal}
use levana_perps.Cw20.Supply.{held}
use levana_perps.Vault.Books.{lp_balance-weight, owns, rebalanced, IsSound}
use levana_perps.Vault.Queue.{
  enqueue-may_load, above_last, enqueue-IsQueue, save_request_last, before_first, enqueue-asked,
}

-- The next key of the queue.
abbrev pub next_id : Vault → ℕ
next_id v = unwrap_or v.queue_id 0

-- The vault with the request at the end of the queue, its shares burnt.
abbrev pub requested : ℕ → ℕ → Vault → Vault
requested user amount v = record v {
  lp_balances = save user (lp_balance v user - amount) v.lp_balances;
  total_lp_supply = v.total_lp_supply - amount;
  queue_id = some (next_id v + 1);
  withdrawal_queue =
      v.withdrawal_queue ++ ((next_id v, record { user = user; amount = amount }) ∷ []);
  user_withdrawals = mark user (next_id v) true v.user_withdrawals;
  total_pending_withdrawals = v.total_pending_withdrawals + amount;
}

lp_balance-le : (user : ℕ) (v : Vault) → IsSound v → lp_balance v user ≤ v.total_lp_supply
lp_balance-le user v s =
    omega (arith, s.total, lp_balance-weight user v, weight-le-sum (λ n. n) user v.lp_balances)

requested-marked :
    (user amount : ℕ) (v : Vault)
    → IsSound v
    → (u k : ℕ)
    → (requested user amount v).user_withdrawals u k
      ≡ owns u (may_load k (requested user amount v).withdrawal_queue)
requested-marked user amount v s u k = ground (
  arith,
  s.marked u k,
  before_first (next_id v) (next_id v) (next_id v) [],
  enqueue-may_load 0 (next_id v) k v.withdrawal_queue (record { user = user; amount = amount })
      s.ordered,
  key_is_new,
)
  where
    key_is_new : may_load (next_id v) v.withdrawal_queue ≡ none
    key_is_new = above_last 0 (next_id v) (next_id v) v.withdrawal_queue s.ordered (omega arith)

pub requested-IsSound :
    (user amount : ℕ) (v : Vault)
    → IsSound v
    → 0 < amount
    → amount ≤ lp_balance v user
    → v.total_pending_withdrawals + amount < uint128_modulus
    → IsSound (requested user amount v)
requested-IsSound user amount v s some_asked held fits =
    let request : WithdrawalRequest = record { user = user; amount = amount } in
    let burnt =
      rebalanced user (lp_balance v user - amount) (v.total_lp_supply - amount) v s
        (omega (arith, held, lp_balance-le user v s)) in
    record {
      distinct = burnt.distinct;
      total = burnt.total;
      ordered = enqueue-IsQueue 0 (next_id v) v.withdrawal_queue request some_asked s.ordered;
      pending = omega (arith, s.pending, enqueue-asked v.withdrawal_queue (next_id v) request);
      fits = fits;
      marked = requested-marked user amount v s;
    }

documented_request :
    (info : Info) (amount : ℕ) (v : Vault)
    → IsSound v
    → v.config.paused ≡ false
    → execute_request_withdrawal ⦃c = documented⦄ info amount v ≡ (
        if not (leb amount (lp_balance v info.sender))
        then err underflow
        else if not (ltb (next_id v + 1) uint64_modulus)
        then err panic
        else if amount == 0
        then err failed
        else if ltb (v.total_pending_withdrawals + amount) uint128_modulus
        then ok (requested info.sender amount v, [])
        else err overflow)
unfolding execute_request_withdrawal check_not_paused get_and_increment_queue_id
documented_request info amount v s running = ground (
  arith,
  running,
  lp_balance-le info.sender v s,
  save_request_last 0 (next_id v) v.withdrawal_queue
      (record { user = info.sender; amount = amount }) s.ordered,
)

module _ ⦃c : Cosmwasm⦄ (doc : IsDocumented c) where
  -- In a vault whose books are in order and that is not paused, a request of an amount that the user
  -- holds, other than zero, is put at the end of the queue under the next key, the shares are burnt
  -- and the amount is pending. Otherwise the request fails: for more than the user holds, at the last
  -- key, for nothing, and where the pending amount does not fit, in this order.
  pub execute_request_withdrawal_lem :
      (info : Info) (amount : ℕ) (v : Vault)
      → IsSound v
      → v.config.paused ≡ false
      → execute_request_withdrawal info amount v ≡ (
          if not (leb amount (lp_balance v info.sender))
          then err underflow
          else if not (ltb (next_id v + 1) uint64_modulus)
          then err panic
          else if amount == 0
          then err failed
          else if ltb (v.total_pending_withdrawals + amount) uint128_modulus
          then ok (requested info.sender amount v, [])
          else err overflow)
  execute_request_withdrawal_lem = rw (eq_documented doc) documented_request

  pub request-IsSound :
      (info : Info) (amount : ℕ) (v : Vault)
      → IsSound v
      → Ensures (λ r. IsSound r.0) (execute_request_withdrawal info amount v)
  unfolding execute_request_withdrawal
  request-IsSound info amount v s = elim (Bool-cases v.config.paused) [
    | inl halted ↦ rw halted tt
    | inr running ↦ rw (execute_request_withdrawal_lem info amount v s running) (
        Ensures-if _ (not (leb amount (lp_balance v info.sender))) _ _ (λ _. tt)
          λ held.
            Ensures-if _ (not (ltb (next_id v + 1) uint64_modulus)) _ _ (λ _. tt)
              λ _.
                Ensures-if _ (amount == 0) _ _ (λ _. tt)
                  λ some_asked.
                    Ensures-if _ (ltb (v.total_pending_withdrawals + amount) uint128_modulus) _ _
                      (λ fits.
                        requested-IsSound info.sender amount v s (ground (arith, some_asked))
                          (ground (arith, held)) (ltb→lt _ _ fits))
                      λ _. tt)
  ]
