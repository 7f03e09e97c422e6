-- ===== src/Prelude/Rounds.antt =====
-- Outcomes of loops that have enough fuel: a value or a panic.
use mathlib.Core.Path.{◌≡◌, refl}
use mathlib.Core.Bool.{Bool, true, false}
use osce.Prelude.Tests.{if◌then◌else◌}
use osce.Prelude.Results.{Outcome, done, panic, out_of_fuel, ◌>>=◌}

-- A routine does not run out of rounds, and what it returns satisfies `P`.
unfoldable pub Ends {ℓ} : {A : Type ℓ} → (A → Type 0) → Outcome A → Type 0
Ends P (done a) = P a
Ends P panic = Unit
Ends P out_of_fuel = ⊥

-- Nothing is asked of what is returned.
abbrev pub Any {ℓ} : {A : Type ℓ} → A → Type 0
Any a = Unit

pub Ends-done {ℓ} : {A : Type ℓ} (P : A → Type 0) (a : A) → P a → Ends P (done a)
unfolding Ends
Ends-done P a p = p

pub Ends-panic {ℓ} : {A : Type ℓ} (P : A → Type 0) → Ends P panic
unfolding Ends
Ends-panic P = tt

pub Ends-bind {ℓ κ} :
    {A : Type ℓ} {B : Type κ} (P : A → Type 0) (Q : B → Type 0) (m : Outcome A) (f : A → Outcome B)
    → Ends P m
    → ((a : A) → P a → Ends Q (f a))
    → Ends Q (m >>= f)
unfolding Ends
Ends-bind P Q (done a) f e h = h a e
Ends-bind P Q panic f e h = tt
Ends-bind P Q out_of_fuel f e h = elim e [ ]

pub Ends-if {ℓ} :
    {A : Type ℓ} (P : A → Type 0) (b : Bool) (x y : Outcome A)
    → (b ≡ true → Ends P x)
    → (b ≡ false → Ends P y)
    → Ends P (if b then x else y)
Ends-if P true x y hx hy = hx refl
Ends-if P false x y hx hy = hy refl

pub Ends-mono {ℓ} :
    {A : Type ℓ} (P Q : A → Type 0) (m : Outcome A) → Ends P m → ((a : A) → P a → Q a) → Ends Q m
unfolding Ends
Ends-mono P Q (done a) e h = h a e
Ends-mono P Q panic e h = tt
Ends-mono P Q out_of_fuel e h = elim e [ ]
