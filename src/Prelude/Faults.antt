-- ===== src/Prelude/Faults.antt =====
-- Results of calls that may end the process. A C function that returns `NULL` or -1 as an answer
-- returns an `Option` or a code instead; a fault is the end of the run.
use mathlib.Core.Path.{◌≡◌, refl}
use mathlib.Core.Logic.{◌⊎◌, inl, inr}
use mathlib.Core.Bool.{Bool, true, false}
use osdesignasst.Prelude.Tests.{if◌then◌else◌}

-- `panic()` and `errExit`, a failed `assert`, an access outside an array, the default SIGSEGV
-- handler, and a loop that never ends.
pub data Fault : Type 0 where
  panic assert_failed out_of_bounds segv hang : Fault

pub data Outcome {ℓ} (A : Type ℓ) : Type ℓ where
  ok : A → Outcome A
  fault : Fault → Outcome A

infixl 5 ◌>>=◌ ◌>>◌
abbrev pub ◌>>=◌ {ℓ κ} : {A : Type ℓ} {B : Type κ} → Outcome A → (A → Outcome B) → Outcome B
ok a >>= f = f a
fault e >>= f = fault e

abbrev pub ◌>>◌ {ℓ} : {B : Type ℓ} → Outcome (Unit {0}) → Outcome B → Outcome B
m >> k = m >>= λ _. k

-- The run ends with a value that meets `P`.
abbrev pub Returns {ℓ κ} : {A : Type ℓ} → Outcome A → (A → Type κ) → Type (ℓ ⊔ κ)
Returns {A} m P = (a : A) × (m ≡ ok a) × P a

module _ {ℓ} {A : Type ℓ} where
  pub Outcome-cases : (m : Outcome A) → ((e : Fault) × (m ≡ fault e)) ⊎ ((a : A) × (m ≡ ok a))
  Outcome-cases (ok a) = inr (a, refl)
  Outcome-cases (fault e) = inl (e, refl)

  pub ok-injective : (a b : A) → ok a ≡ ok b → a ≡ b
  ok-injective a b h = cc

-- A chain that ends well begins with a call that does.
pub >>=-eq-ok {ℓ κ} :
    {P : Type ℓ} {Q : Type κ} {q : Q} (call : Outcome P) (rest : P → Outcome Q)
    → call >>= rest ≡ ok q
    → Returns call (λ p. rest p ≡ ok q)
>>=-eq-ok (fault e) rest ended = cc
>>=-eq-ok (ok p) rest ended = (p, refl, ended)

-- And a guard before it was passed.
pub if-eq-ok {ℓ} :
    {A : Type ℓ} (b : Bool) (m : Outcome A) (e : Fault) {a : A}
    → (if b then m else fault e) ≡ ok a
    → (b ≡ true) × (m ≡ ok a)
if-eq-ok true m e h = (refl, h)
if-eq-ok false m e h = cc

-- What holds of the result, if there is one.
abbrev pub IfOk : {A : Type 0} → Outcome A → (A → Type 0) → Type 0
IfOk (ok a) P = P a
IfOk (fault e) P = Unit {0}

pub bind-IfOk :
    {A B : Type 0} {P : A → Type 0} (Q : B → Type 0) (m : Outcome A) (f : A → Outcome B)
    → IfOk m P
    → ((a : A) → P a → IfOk (f a) Q)
    → IfOk (m >>= f) Q
bind-IfOk Q (ok a) f h k = k a h
bind-IfOk Q (fault e) f h k = h

pub any-IfOk : {A : Type 0} (m : Outcome A) → IfOk m (λ a. Unit {0})
any-IfOk (ok a) = tt
any-IfOk (fault e) = tt
