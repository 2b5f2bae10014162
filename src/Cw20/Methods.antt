-- ===== src/Cw20/Methods.antt =====
-- The books of the token under each method of contracts/cw20/src/state/cw20.rs.
use levana_perps.Cosmwasm.{Cosmwasm, IsDocumented}
use levana_perps.Prelude.{
  panic, not_found, auth, context, Option, Result, err, ok, ◌>>=◌, none, List, ◌==◌, cw20_funds,
  Ensures-bind, ensure, Ensures-then, ℕ, Bool, not, some,
}
use levana_perps.Cw20.Supply.{IsSound}
use levana_perps.Cw20.State.{
  minter_addr, allowance_increase_event, mint_event, allowance_decrease_event, Output, burn_event,
  send_event, add_output, transfer_event, receive_message, Token,
}
use levana_perps.Cw20.Ledger.{
  send_with_msg_from, set_minter, increase, within_cap, decrease_allowance, increase_allowance,
  mint, decrease, send_with_msg, credit, debit, reduce_supply, deduct_allowance, burn_from,
  transfer, deduct, burn, transfer_from,
}
use levana_perps.Cw20.Keeps.{
  minted-IsSound, minter-IsSound, move-IsSound, put_both-IsSound, destroy-IsSound,
  add_output-IsSound, Keeps,
}

module _ ⦃c : Cosmwasm⦄ (doc : IsDocumented c) {X : Type 0} where
  pub deduct_allowance-IsSound :
      (test : X → Bool) (o p a : ℕ) (t : Token X)
      → IsSound t
      → Keeps (deduct_allowance test o p a t)
  unfolding deduct_allowance
  deduct_allowance-IsSound test o p a t s = rw (← s.mirrored o p) (
      Ensures-then IsSound (deduct test a (t.allowances o p)) _
        λ v e. rw e (put_both-IsSound o p (some v) t s))

  pub transfer-IsSound : (o r a : ℕ) (t : Token X) → IsSound t → Keeps (transfer o r a t)
  unfolding transfer
  transfer-IsSound o r a t s =
      let t1 = add_output (transfer_event o r a none) t in
      Ensures-then IsSound (ensure (not (a == 0)) cw20_funds) (λ _. debit o a t1 >>= credit r a)
        λ _ _. move-IsSound doc t1 (add_output-IsSound _ t s) o r a

  -- The move of a `send`, with the message that follows it.
  pub deliver-IsSound :
      (o r a : ℕ) (out : Output X) (t : Token X)
      → IsSound t
      → Keeps (debit o a t >>= λ t2. credit r a t2 >>= λ t3. ok (add_output out t3))
  deliver-IsSound o r a out t s = delivered (debit o a t) (move-IsSound doc t s o r a)
    where
      delivered :
          (m : Result (Token X))
          → Keeps (m >>= credit r a)
          → Keeps (m >>= λ t2. credit r a t2 >>= λ t3. ok (add_output out t3))
      delivered (ok u) k =
          Ensures-bind IsSound IsSound (credit r a u) _ k (λ v. add_output-IsSound _ v)
      delivered (err e) k = tt

  pub send_with_msg-IsSound :
      (o r a : ℕ) (msg : List ℕ) (t : Token X) → IsSound t → Keeps (send_with_msg o r a msg t)
  unfolding send_with_msg
  send_with_msg-IsSound o r a msg t s =
      let t1 = add_output (send_event o r a none) t in
      Ensures-then IsSound (ensure (not (a == 0)) cw20_funds) _
        λ _ _. deliver-IsSound o r a (receive_message r o a msg) t1 (add_output-IsSound _ t s)

  pub spend-IsSound :
      (test : X → Bool) (p o a : ℕ) (out : Output X) (k : Token X → Result (Token X)) (t : Token X)
      → IsSound t
      → ((u : Token X) → IsSound u → Keeps (k u))
      → Keeps (deduct_allowance test o p a (add_output out t) >>= k)
  spend-IsSound test p o a out k t s next =
      let t1 = add_output out t in
      Ensures-bind IsSound IsSound (deduct_allowance test o p a t1) k
        (deduct_allowance-IsSound test o p a t1 (add_output-IsSound out t s)) next

  pub transfer_from-IsSound :
      (test : X → Bool) (p o r a : ℕ) (t : Token X)
      → IsSound t
      → Keeps (transfer_from test p o r a t)
  unfolding transfer_from
  transfer_from-IsSound test p o r a t s =
      spend-IsSound test p o a (transfer_event o r a (some p)) (λ u. debit o a u >>= credit r a) t s
        λ u k. move-IsSound doc u k o r a

  pub burn-IsSound : (o a : ℕ) (t : Token X) → IsSound t → Keeps (burn o a t)
  unfolding burn
  burn-IsSound o a t s =
      let t1 = add_output (burn_event o a none) t in
      Ensures-then IsSound (ensure (not (a == 0)) cw20_funds)
        (λ _. debit o a t1 >>= reduce_supply a)
        λ _ _. destroy-IsSound doc t1 (add_output-IsSound _ t s) o a

  pub burn_from-IsSound :
      (test : X → Bool) (p o a : ℕ) (t : Token X) → IsSound t → Keeps (burn_from test p o a t)
  unfolding burn_from
  burn_from-IsSound test p o a t s =
      spend-IsSound test p o a (burn_event o a (some p)) (λ u. debit o a u >>= reduce_supply a) t s
        λ u k. destroy-IsSound doc u k o a

  pub send_with_msg_from-IsSound :
      (test : X → Bool) (p o r a : ℕ) (msg : List ℕ) (t : Token X)
      → IsSound t
      → Keeps (send_with_msg_from test p o r a msg t)
  unfolding send_with_msg_from
  send_with_msg_from-IsSound test p o r a msg t s =
      let out = receive_message r p a msg in
      spend-IsSound test p o a (send_event o r a (some p))
        (λ u. debit o a u >>= λ t2. credit r a t2 >>= λ t3. ok (add_output out t3)) t s
        λ u k. deliver-IsSound o r a out u k

  pub mint-IsSound : (p r a : ℕ) (t : Token X) → IsSound t → Keeps (mint p r a t)
  unfolding mint
  mint-IsSound p r a t s =
      let t1 = add_output (mint_event p r a) t in
      let s1 = add_output-IsSound (mint_event p r a) t s in
      Ensures-then IsSound (ensure (not (a == 0)) cw20_funds) _ λ _ _.
        Ensures-then IsSound (context t1.token_info auth) _ λ info known.
          Ensures-then IsSound (minter_addr t1) _ λ minter _.
            Ensures-then IsSound (ensure (minter == p) auth) _ λ _ _.
              Ensures-then IsSound (context (c.uint128_add info.total_supply a) panic) _ λ n sum.
                Ensures-then IsSound (ensure (within_cap n t1.minter_cap) cw20_funds) _
                  λ _ room. minted-IsSound doc t1 s1 r a n info known sum room

  pub increase_allowance-IsSound :
      (never : X) (o p a : ℕ) (x : Option X) (t : Token X)
      → IsSound t
      → Keeps (increase_allowance never o p a x t)
  unfolding increase_allowance
  increase_allowance-IsSound never o p a x t s =
      let t1 = add_output (allowance_increase_event o p a x) t in
      rw (← s.mirrored o p) (
        Ensures-then IsSound (ensure (not (p == o)) auth) _ λ _ _.
          Ensures-then IsSound (increase never a x (t.allowances o p)) _
            λ v e. rw e (put_both-IsSound o p (some v) t1 (add_output-IsSound _ t s)))

  pub decrease_allowance-IsSound :
      (o p a : ℕ) (x : Option X) (t : Token X) → IsSound t → Keeps (decrease_allowance o p a x t)
  unfolding decrease_allowance
  decrease_allowance-IsSound o p a x t s =
      let t1 = add_output (allowance_decrease_event o p a x) t in
      Ensures-then IsSound (ensure (not (p == o)) auth) _ λ _ _.
        Ensures-then IsSound (context (t.allowances o p) not_found) _ λ b _.
          Ensures-then IsSound (decrease a x b) _
            λ v e. put_both-IsSound o p v t1 (add_output-IsSound _ t s)

  pub set_minter-IsSound :
      (validate : ℕ → Option ℕ) (p new : ℕ) (t : Token X)
      → IsSound t
      → Keeps (set_minter validate p new t)
  unfolding set_minter
  set_minter-IsSound validate p new t s = Ensures-then IsSound (minter_addr t) _ λ old _.
      Ensures-then IsSound (ensure (old == p) auth) _ λ _ _.
        Ensures-then IsSound (context (validate new) not_found) _
          λ addr _. add_output-IsSound _ _ (minter-IsSound addr t s)
