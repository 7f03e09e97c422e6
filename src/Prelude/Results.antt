-- ===== src/Prelude/Results.antt =====
-- What a call of a kernel routine comes to: a value, a `panic`, or fuel that ran out in a loop.
use mathlib.Core.Path.{◌≡◌}

pub data Outcome {ℓ} (A : Type ℓ) : Type ℓ where
  done : A → Outcome A
  panic : Outcome A
  out_of_fuel : Outcome A

infixl 5 ◌>>=◌
abbrev pub ◌>>=◌ {ℓ κ} : {A : Type ℓ} {B : Type κ} → Outcome A → (A → Outcome B) → Outcome B
done a >>= f = f a
panic >>= f = panic
out_of_fuel >>= f = out_of_fuel

-- What a routine returns, if it returns.
abbrev pub Returns {ℓ} : {A : Type ℓ} → (A → Type 0) → Outcome A → Type 0
Returns P (done a) = P a
Returns P _ = Unit

pub Returns-bind {ℓ κ} :
    {A : Type ℓ} {B : Type κ} (P : B → Type 0) (m : Outcome A) (f : A → Outcome B)
    → ((a : A) → Returns P (f a))
    → Returns P (m >>= f)
Returns-bind P (done a) f h = h a
Returns-bind P panic f h = tt
Returns-bind P out_of_fuel f h = tt

pub Returns-done {ℓ} :
    {A : Type ℓ} (P : A → Type 0) (m : Outcome A) (a : A) → Returns P m → m ≡ done a → P a
Returns-done P m a r e = rw e at r

pub Returns-mono {ℓ} :
    {A : Type ℓ} (P Q : A → Type 0) (m : Outcome A)
    → ((a : A) → P a → Q a)
    → Returns P m
    → Returns Q m
Returns-mono P Q (done a) f r = f a r
Returns-mono P Q panic f r = tt
Returns-mono P Q out_of_fuel f r = tt

-- A bind, when something is known of what the first part returns.
pub Returns-seq {ℓ κ} :
    {A : Type ℓ} {B : Type κ} (P : A → Type 0) (Q : B → Type 0) (m : Outcome A) (f : A → Outcome B)
    → Returns P m
    → ((a : A) → P a → Returns Q (f a))
    → Returns Q (m >>= f)
Returns-seq P Q (done a) f r h = h a r
Returns-seq P Q panic f r h = tt
Returns-seq P Q out_of_fuel f r h = tt

-- A routine returns, neither by a panic nor out of fuel, and what it returns satisfies `P`.
abbrev pub Always {ℓ} : {A : Type ℓ} → (A → Type 0) → Outcome A → Type 0
Always P (done a) = P a
Always P panic = ⊥
Always P out_of_fuel = ⊥
