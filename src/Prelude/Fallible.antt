-- ===== src/Prelude/Fallible.antt =====
-- Fallible code: `anyhow::Result`, with the reasons that the modelled code gives. A panic aborts a
-- contract call as an error does, so it is an error too.
use mathlib.Core.Path.{◌≡◌, refl, subst}
use levana_perps.Prelude.Tests.{if◌then◌else◌}
use mathlib.Core.Bool.{Bool, true, false}
use mathlib.Core.Option.{Option, none, some}

pub data Error : Type 0 where
  overflow underflow divide_by_zero panic negative_value : Error
  not_found msg_validation auth cw20_funds expired : Error
  max_liquidity liquidity_cooldown withdraw_too_much insufficient_liquidity : Error
  invalid_stake_lp no_yield_to_claim insufficient_for_reinvest : Error
  timestamp_underflow : Error
  failed : Error

pub data Result {ℓ} (A : Type ℓ) : Type ℓ where
  ok : A → Result A
  err : Error → Result A

-- `anyhow::ensure!`.
abbrev pub ensure : Bool → Error → Result (Unit {0})
ensure holds reason = if holds then ok tt else err reason

infixl 5 ◌>>=◌ ◌>>◌
abbrev pub ◌>>=◌ {ℓ κ} : {A : Type ℓ} {B : Type κ} → Result A → (A → Result B) → Result B
err reason >>= next = err reason
ok value >>= next = next value

-- The `?` of a call whose value is not used.
abbrev pub ◌>>◌ {ℓ} : {B : Type ℓ} → Result (Unit {0}) → Result B → Result B
first >> next = first >>= λ done. next

-- `Option::context`, `Option::ok_or`.
abbrev pub context {ℓ} : {A : Type ℓ} → Option A → Error → Result A
context none e = err e
context (some a) e = ok a

-- `Result::ok`.
abbrev pub to_option {ℓ} : {A : Type ℓ} → Result A → Option A
to_option (ok a) = some a
to_option (err e) = none

-- What holds of the value that a call returns, if it returns one.
abbrev pub Ensures {ℓ} : {A : Type ℓ} → (A → Type 0) → Result A → Type 0
Ensures P (ok a) = P a
Ensures P (err e) = Unit {0}

pub >>=-eq-ok {ℓ κ} :
    {A : Type ℓ} {B : Type κ} (first : Result A) (next : A → Result B) {result : B}
    → (first >>= next) ≡ ok result
    → (value : A) × (first ≡ ok value) × (next value ≡ ok result)
>>=-eq-ok (err reason) next h = cc
>>=-eq-ok (ok value) next h = (value, refl, h)

pub context-eq-ok {ℓ} :
    {A : Type ℓ} (o : Option A) (e : Error) {a : A} → context o e ≡ ok a → o ≡ some a
context-eq-ok none e h = cc
context-eq-ok (some b) e h = cc

pub Ensures-bind {ℓ κ} :
    {A : Type ℓ} {B : Type κ} (P : A → Type 0) (Q : B → Type 0) (m : Result A) (f : A → Result B)
    → Ensures P m
    → ((a : A) → P a → Ensures Q (f a))
    → Ensures Q (m >>= f)
Ensures-bind P Q (ok a) f p k = k a p
Ensures-bind P Q (err e) f p k = tt

-- A step whose value needs no invariant: a test, or a value looked up.
pub Ensures-then {ℓ κ} :
    {A : Type ℓ} {B : Type κ} (Q : B → Type 0) (m : Result A) (f : A → Result B)
    → ((a : A) → m ≡ ok a → Ensures Q (f a))
    → Ensures Q (m >>= f)
Ensures-then Q (ok a) f k = k a refl
Ensures-then Q (err e) f k = tt

pub Ensures-ok {ℓ} :
    {A : Type ℓ} (P : A → Type 0) (m : Result A) {a : A} → Ensures P m → m ≡ ok a → P a
Ensures-ok P (ok b) p e = subst (Ensures P) e p
Ensures-ok P (err x) p e = cc

pub ensure-eq-ok : (b : Bool) (e : Error) {u : Unit {0}} → ensure b e ≡ ok u → b ≡ true
ensure-eq-ok true e h = refl
ensure-eq-ok false e h = cc

-- A test, and what it says on each side.
pub Ensures-if {ℓ} :
    {A : Type ℓ} (Q : A → Type 0) (b : Bool) (x y : Result A)
    → (b ≡ true → Ensures Q x)
    → (b ≡ false → Ensures Q y)
    → Ensures Q (if b then x else y)
Ensures-if Q true x y f g = f refl
Ensures-if Q false x y f g = g refl

pub Ensures-map {ℓ} :
    {A : Type ℓ} (P Q : A → Type 0) (m : Result A)
    → Ensures P m
    → ((a : A) → P a → Q a)
    → Ensures Q m
Ensures-map P Q (ok a) p f = f a p
Ensures-map P Q (err e) p f = tt

pub Ensures-of {ℓ} :
    {A : Type ℓ} (P : A → Type 0) (m : Result A) → ((a : A) → m ≡ ok a → P a) → Ensures P m
Ensures-of P (ok a) f = f a refl
Ensures-of P (err e) f = tt
