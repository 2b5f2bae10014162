-- ===== src/Cw20/Competition.antt =====
-- A whole call of the token while the trading competition is on: `execute` of
-- contracts/cw20/src/contract.rs with contracts/cw20/src/state/trading_competition.rs.
use levana_perps.Cosmwasm.{Cosmwasm, IsDocumented}
use levana_perps.Prelude.{
  Ensures-ok, ◌≡◌, ◌≢◌, ◌==◌, ◌>>=◌, context, Ensures-then, panic, Ensures, not_found, ok, Result,
  auth, cw20_funds, Ensures-map, ensure, ℕ, refl, Bool, not, Option, none, some, List, arith,
}
use levana_perps.Cw20.Execute.{
  Env, dispatch, execute, send_from_msg, burn_msg, set_market, restricted, burn_from_msg,
  increase_allowance_msg, transfer_from_msg, assert_trading_competition, decrease_allowance_msg,
  send_msg, update_minter, transfer_msg, set_market_addr, ExecuteMsg, mint_msg,
}
use levana_perps.Cw20.Guarded.{
  Guarded, pay_market-Safe, credit-Guarded, then-Guarded, output-Safe, deduct_allowance-Safe,
  debit-Safe, put-Safe, destroy-Safe, Safe, credit-Safe, Guarded-then,
}
use levana_perps.Cw20.State.{
  Output, minter_addr, allowance_decrease_event, Token, receive_message, transfer_event, send_event,
  add_output, burn_event, mint_event, allowance_increase_event,
}
use levana_perps.Cw20.Ledger.{
  debit, credit, deduct_allowance, transfer, mint, decrease, transfer_from, burn,
  decrease_allowance, increase_allowance, send_with_msg_from, within_cap, increase, set_minter,
  send_with_msg, burn_from,
}

-- What a message asks to create.
abbrev pub minted : {X : Type 0} → ExecuteMsg X → ℕ
minted (mint_msg recipient amount) = amount
minted _ = 0

module _ ⦃c : Cosmwasm⦄ (doc : IsDocumented c) {X : Type 0} (market : ℕ) where
  -- The steps of a method after its event.
  after_output :
      (n : ℕ) (o : Output X) (t : Token X) (m : Result (Token X))
      → Ensures (Guarded market n (add_output o t)) m
      → Ensures (Guarded market n t) m
  after_output n o t m h =
      Ensures-map _ (Guarded market n t) m h
        λ v. Guarded-then market n t (add_output o t) v (output-Safe doc market o t)

  transfer-Safe : (o a : ℕ) (t : Token X) → Ensures (Safe market t) (transfer o market a t)
  unfolding transfer
  transfer-Safe o a t = after_output 0 (transfer_event o market a none) t _ (
      Ensures-then (Safe market _) (ensure (not (a == 0)) cw20_funds) _
        λ _ _. pay_market-Safe doc market o a _)

  burn-Safe : (o a : ℕ) (t : Token X) → Ensures (Safe market t) (burn o a t)
  unfolding burn
  burn-Safe o a t = after_output 0 (burn_event o a none) t _ (
      Ensures-then (Safe market _) (ensure (not (a == 0)) cw20_funds) _
        λ _ _. destroy-Safe doc market o a _)

  -- The move of a `send`, with the message that follows it.
  deliver-Safe :
      (o a : ℕ) (out : Output X) (t : Token X)
      → Ensures
          (Safe market t)
          (debit o a t >>= λ t2. credit market a t2 >>= λ t3. ok (add_output out t3))
  deliver-Safe o a out t =
      then-Guarded doc market 0 t (debit o a t) _ (debit-Safe doc market o a t) λ u.
        then-Guarded doc market 0 u (credit market a u) _ (credit-Safe doc market a u)
          λ v. output-Safe doc market out v

  send_with_msg-Safe :
      (o a : ℕ) (msg : List ℕ) (t : Token X)
      → Ensures (Safe market t) (send_with_msg o market a msg t)
  unfolding send_with_msg
  send_with_msg-Safe o a msg t = after_output 0 (send_event o market a none) t _ (
      Ensures-then (Safe market _) (ensure (not (a == 0)) cw20_funds) _
        λ _ _. deliver-Safe o a (receive_message market o a msg) _)

  -- An allowance is spent, and the rest of the method follows.
  spend-Safe :
      (test : X → Bool) (p o a : ℕ) (out : Output X) (f : Token X → Result (Token X)) (t : Token X)
      → ((u : Token X) → Ensures (Safe market u) (f u))
      → Ensures (Safe market t) (deduct_allowance test o p a (add_output out t) >>= f)
  spend-Safe test p o a out f t k = after_output 0 out t _ (
      then-Guarded doc market 0 _ (deduct_allowance test o p a (add_output out t)) f
        (deduct_allowance-Safe doc market test o p a _) k)

  transfer_from-Safe :
      (test : X → Bool) (p o a : ℕ) (t : Token X)
      → Ensures (Safe market t) (transfer_from test p o market a t)
  unfolding transfer_from
  transfer_from-Safe test p o a t = spend-Safe test p o a _ _ t (pay_market-Safe doc market o a)

  burn_from-Safe :
      (test : X → Bool) (p o a : ℕ) (t : Token X) → Ensures (Safe market t) (burn_from test p o a t)
  unfolding burn_from
  burn_from-Safe test p o a t = spend-Safe test p o a _ _ t (destroy-Safe doc market o a)

  send_with_msg_from-Safe :
      (test : X → Bool) (p o a : ℕ) (msg : List ℕ) (t : Token X)
      → Ensures (Safe market t) (send_with_msg_from test p o market a msg t)
  unfolding send_with_msg_from
  send_with_msg_from-Safe test p o a msg t =
      spend-Safe test p o a _ _ t (deliver-Safe o a (receive_message market p a msg))

  mint-Guarded : (p r a : ℕ) (t : Token X) → Ensures (Guarded market a t) (mint p r a t)
  unfolding mint
  mint-Guarded p r a t =
      let Q = Guarded market a t in
      let t1 = add_output (mint_event p r a) t in
      Ensures-then Q (ensure (not (a == 0)) cw20_funds) _ λ _ _.
        Ensures-then Q (context t1.token_info auth) _ λ info _.
          Ensures-then Q (minter_addr t1) _ λ minter _.
            Ensures-then Q (ensure (minter == p) auth) _ λ _ _.
              Ensures-then Q (context (c.uint128_add info.total_supply a) panic) _ λ n _.
                Ensures-then Q (ensure (within_cap n t1.minter_cap) cw20_funds) _ λ _ _.
                  let t2 = record t1 { token_info = some (record info { total_supply = n }) } in
                  Ensures-map (Guarded market a t2) Q (credit r a t2)
                    (credit-Guarded doc market r a t2)
                    λ v g. record {
                      gains = g.gains;
                      allows = g.allows;
                      same_market = g.same_market;
                    }

  increase_allowance-Safe :
      (never : X) (o a : ℕ) (x : Option X) (t : Token X)
      → Ensures (Safe market t) (increase_allowance never o market a x t)
  unfolding increase_allowance
  increase_allowance-Safe never o a x t =
      let t1 = add_output (allowance_increase_event o market a x) t in
      let Q = Safe market t1 in
      after_output 0 (allowance_increase_event o market a x) t _ (
        Ensures-then Q (ensure (not (market == o)) auth) _ λ _ _.
          Ensures-then Q (increase never a x (t1.allowances o market)) _ λ v _.
            Ensures-then Q (increase never a x (t1.allowances_spender market o)) _
              λ w _. put-Safe market o market (some v) _ t1 λ other. absurd (other refl))

  decrease_allowance-Safe :
      (o a : ℕ) (x : Option X) (t : Token X)
      → Ensures (Safe market t) (decrease_allowance o market a x t)
  unfolding decrease_allowance
  decrease_allowance-Safe o a x t =
      let t1 = add_output (allowance_decrease_event o market a x) t in
      let Q = Safe market t1 in
      after_output 0 (allowance_decrease_event o market a x) t _ (
        Ensures-then Q (ensure (not (market == o)) auth) _ λ _ _.
          Ensures-then Q (context (t1.allowances o market) not_found) _ λ b _.
            Ensures-then Q (decrease a x b) _
              λ v _. put-Safe market o market v _ t1 λ other. absurd (other refl))

  set_minter-Safe :
      (validate : ℕ → Option ℕ) (p new : ℕ) (t : Token X)
      → Ensures (Safe market t) (set_minter validate p new t)
  unfolding set_minter
  set_minter-Safe validate p new t =
      let Q = Safe market t in
      Ensures-then Q (minter_addr t) _ λ old _. Ensures-then Q (ensure (old == p) auth) _ λ _ _.
        Ensures-then Q (context (validate new) not_found) _ λ addr _. record {
          gains = λ a _. omega arith;
          allows = λ o p _. omega arith;
          same_market = refl;
        }

module _ ⦃c : Cosmwasm⦄ {X : Type 0} where
  -- The guard lets a message of others than the market pass only to the market.
  guard-passes :
      (e : Env X) (msg : ExecuteMsg X) (t : Token X) (market : ℕ) {u : Unit {0}}
      → t.market_address ≡ some market
      → e.sender ≢ market
      → assert_trading_competition e msg t ≡ ok u
      → (raw : ℕ) → restricted msg ≡ some raw
      → e.validate raw ≡ some market
  unfolding assert_trading_competition
  guard-passes e msg t market limited other h raw names = ground arith

  -- A raw address that is the market.
  to_market :
      (Q : Token X → Type 0) (o : Option ℕ) (market : ℕ) (f : ℕ → Result (Token X))
      → o ≡ some market
      → Ensures Q (f market)
      → Ensures Q (context o not_found >>= f)
  to_market Q o market f same h = rw same h

module _ ⦃c : Cosmwasm⦄ (doc : IsDocumented c) {X : Type 0} (market : ℕ) where
  set_market_addr-Safe :
      (addr : ℕ) (t : Token X)
      → t.market_address ≡ some market
      → Ensures (Safe market t) (set_market_addr addr t)
  unfolding set_market_addr
  set_market_addr-Safe addr t limited = rw limited tt

  dispatch-Guarded :
      (e : Env X) (msg : ExecuteMsg X) (t : Token X)
      → t.market_address ≡ some market
      → ((raw : ℕ) → restricted msg ≡ some raw → e.validate raw ≡ some market)
      → Ensures (Guarded market (minted msg) t) (dispatch e msg t)
  unfolding dispatch restricted
  dispatch-Guarded e (set_market addr) t limited passes =
      let Q = Safe market t in
      Ensures-then Q (minter_addr t) _ λ minter _.
        Ensures-then Q (ensure (minter == e.sender) auth) _ λ _ _.
          Ensures-then Q (context (e.validate addr) not_found) _
            λ new _. set_market_addr-Safe new t limited
  dispatch-Guarded e (transfer_msg recipient amount) t limited passes =
      to_market (Safe market t) (e.validate recipient) market _ (passes recipient refl)
        (transfer-Safe doc market e.sender amount t)
  dispatch-Guarded e (burn_msg amount) t limited passes = burn-Safe doc market e.sender amount t
  dispatch-Guarded e (send_msg contract amount msg) t limited passes =
      to_market (Safe market t) (e.validate contract) market _ (passes contract refl)
        (send_with_msg-Safe doc market e.sender amount msg t)
  dispatch-Guarded e (mint_msg recipient amount) t limited passes =
      Ensures-then (Guarded market amount t) (context (e.validate recipient) not_found) _
        λ r _. mint-Guarded doc market e.sender r amount t
  dispatch-Guarded e (increase_allowance_msg spender amount expires) t limited passes =
      to_market (Safe market t) (e.validate spender) market _ (passes spender refl)
        (increase_allowance-Safe doc market e.never e.sender amount expires t)
  dispatch-Guarded e (decrease_allowance_msg spender amount expires) t limited passes =
      to_market (Safe market t) (e.validate spender) market _ (passes spender refl)
        (decrease_allowance-Safe doc market e.sender amount expires t)
  dispatch-Guarded e (transfer_from_msg owner recipient amount) t limited passes =
      Ensures-then (Safe market t) (context (e.validate owner) not_found) _ λ o _.
        to_market (Safe market t) (e.validate recipient) market _ (passes recipient refl)
          (transfer_from-Safe doc market e.is_expired e.sender o amount t)
  dispatch-Guarded e (burn_from_msg owner amount) t limited passes =
      Ensures-then (Safe market t) (context (e.validate owner) not_found) _
        λ o _. burn_from-Safe doc market e.is_expired e.sender o amount t
  dispatch-Guarded e (send_from_msg owner contract amount msg) t limited passes =
      Ensures-then (Safe market t) (context (e.validate owner) not_found) _ λ o _.
        to_market (Safe market t) (e.validate contract) market _ (passes contract refl)
          (send_with_msg_from-Safe doc market e.is_expired e.sender o amount msg t)
  dispatch-Guarded e (update_minter new) t limited passes =
      set_minter-Safe doc market e.validate e.sender new t

  -- While the trading competition is on, whatever message another account than the market sends, if
  -- it succeeds, no account but the market gains tokens, except for at most what a message to mint
  -- asks for, no allowance of a spender other than the market grows, and the market stays.
  pub execute-Guarded :
      (e : Env X) (msg : ExecuteMsg X) (t : Token X) {t' : Token X}
      → t.market_address ≡ some market
      → e.sender ≢ market
      → execute e msg t ≡ ok t'
      → Guarded market (minted msg) t t'
  unfolding execute
  execute-Guarded e msg t limited other h =
      Ensures-ok (Guarded market (minted msg) t) (execute e msg t)
        (Ensures-then (Guarded market (minted msg) t) (assert_trading_competition e msg t) _
          λ _ passed.
            dispatch-Guarded e msg t limited (guard-passes e msg t market limited other passed))
        h
