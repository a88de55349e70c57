-- ===== src/Base/Panics.antt =====
-- A Go call that may panic: the panics of the modelled code, and the monad that passes them on.
-- `channel_full` is no panic: a send waits then, and the call does not end before a receive.
use mathlib.Core.Path.{◌≡◌, refl}
use mathlib.Core.Bool.{Bool, true, false}
use mathlib.Core.Logic.{◌⊎◌, inl, inr}
use mathlib.Core.Option.{Option, none, some}

pub data Panic : Type 0 where
  nil_dereference no_staking_contract out_of_range : Panic
  deep_reorganization height_skipped missing_block no_parent_block : Panic
  no_genesis_validator low_system_balance bad_encoding : Panic
  channel_full : Panic

pub data Outcome {ℓ} (A : Type ℓ) : Type ℓ where
  returns : A → Outcome A
  panics : Panic → Outcome A

infixl 5 ◌>>=◌ ◌>>◌
abbrev pub ◌>>=◌ {ℓ κ} : {A : Type ℓ} {B : Type κ} → Outcome A → (A → Outcome B) → Outcome B
returns a >>= f = f a
panics e >>= f = panics e

abbrev pub ◌>>◌ {ℓ} : {B : Type ℓ} → Outcome (Unit {0}) → Outcome B → Outcome B
m >> k = m >>= λ _. k

-- `if !b { panic(e) }`
abbrev pub require : Bool → Panic → Outcome (Unit {0})
require true e = returns tt
require false e = panics e

-- The use of a pointer that may be nil.
abbrev pub deref {ℓ} : {A : Type ℓ} → Option A → Panic → Outcome A
deref none e = panics e
deref (some a) e = returns a

pub >>=-eq-returns {ℓ κ} :
    {A : Type ℓ} {B : Type κ} (m : Outcome A) (f : A → Outcome B) {b : B}
    → (m >>= f) ≡ returns b
    → (a : A) × (m ≡ returns a) × (f a ≡ returns b)
>>=-eq-returns (returns a) f h = (a, refl, h)
>>=-eq-returns (panics e) f h = cc

pub returns-injective {ℓ} : {A : Type ℓ} {a b : A} → returns a ≡ returns b → a ≡ b
returns-injective h = cc h

-- A property of the result of a chain follows from the results of its steps.
pub >>=-elim {ℓ κ μ} :
    {A : Type ℓ} {B : Type κ} {P : Type μ} (m : Outcome A) (f : A → Outcome B) {b : B}
    → (m >>= f) ≡ returns b
    → ((a : A) → m ≡ returns a → f a ≡ returns b → P)
    → P
>>=-elim (returns a) f h k = k a refl h
>>=-elim (panics e) f h k = absurd (cc h)

pub deref-eq-returns {ℓ} :
    {A : Type ℓ} (o : Option A) (e : Panic) {a : A} → deref o e ≡ returns a → o ≡ some a
deref-eq-returns none e h = cc
deref-eq-returns (some a) e h = cc

pub Outcome-cases {ℓ} :
    {A : Type ℓ} (m : Outcome A) → ((e : Panic) × (m ≡ panics e)) ⊎ ((a : A) × (m ≡ returns a))
Outcome-cases (panics e) = inl (e, refl)
Outcome-cases (returns a) = inr (a, refl)

pub require-eq-returns : (b : Bool) (e : Panic) {u : Unit {0}} → require b e ≡ returns u → b ≡ true
require-eq-returns true e h = refl
require-eq-returns false e h = cc h
