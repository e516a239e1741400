-- ===== src/Prelude/Panics.antt =====
-- What a call of the firmware can do: return a value, or panic (an index out of range, an `unwrap`
-- of nothing, a division by zero). A loop whose fuel runs out is a third case, which the
-- termination theorems rule out. Also the rule by which postconditions go through a `do` block.
use mathlib.Core.Bool.{Bool, true, false}
use mathlib.Core.Option.{Option, none, some}
use mathlib.Core.Path.{◌≡◌, refl}

pub data Outcome {ℓ} (A : Type ℓ) : Type ℓ where
  ok : A → Outcome A
  panicked : Outcome A
  out_of_fuel : Outcome A

infixl 5 ◌>>=◌ ◌>>◌
abbrev pub ◌>>=◌ {ℓ κ} : {A : Type ℓ} {B : Type κ} → Outcome A → (A → Outcome B) → Outcome B
ok a >>= f = f a
panicked >>= f = panicked
out_of_fuel >>= f = out_of_fuel

abbrev pub ◌>>◌ {ℓ} : {B : Type ℓ} → Outcome (Unit {0}) → Outcome B → Outcome B
m >> k = m >>= λ _. k

-- `assert`: an index test, or the test of a divisor.
abbrev pub require : Bool → Outcome (Unit {0})
require true = ok tt
require false = panicked

-- `Option::unwrap`.
abbrev pub unwrap {ℓ} : {A : Type ℓ} → Option A → Outcome A
unwrap none = panicked
unwrap (some a) = ok a

-- The call returns, and what it returns satisfies P.
abbrev pub Ensures {ℓ} : {A : Type ℓ} → (A → Type 0) → Outcome A → Type 0
Ensures P (ok a) = P a
Ensures P panicked = ⊥
Ensures P out_of_fuel = ⊥

pub Ensures-bind {ℓ κ} :
    {A : Type ℓ} {B : Type κ} (P : A → Type 0) (Q : B → Type 0) (m : Outcome A) (f : A → Outcome B)
    → Ensures P m
    → ((a : A) → P a → Ensures Q (f a))
    → Ensures Q (m >>= f)
Ensures-bind P Q (ok a) f h k = k a h
Ensures-bind P Q panicked f h k = absurd h
Ensures-bind P Q out_of_fuel f h k = absurd h

-- A weaker postcondition.
pub Ensures-map {ℓ} :
    {A : Type ℓ} (P Q : A → Type 0) (m : Outcome A)
    → ((a : A) → P a → Q a)
    → Ensures P m
    → Ensures Q m
Ensures-map P Q (ok a) k h = k a h
Ensures-map P Q panicked k h = absurd h
Ensures-map P Q out_of_fuel k h = absurd h

-- What is ensured holds of the very value that is returned.
pub Ensures-returned :
    {A : Type 0} (P : A → Type 0) (m : Outcome A) → Ensures P m → Ensures (λ a. (m ≡ ok a) × P a) m
Ensures-returned P (ok a) h = (refl, h)
Ensures-returned P panicked h = absurd h
Ensures-returned P out_of_fuel h = absurd h

pub Ensures-both {ℓ} :
    {A : Type ℓ} (P Q : A → Type 0) (m : Outcome A)
    → Ensures P m
    → Ensures Q m
    → Ensures (λ a. P a × Q a) m
Ensures-both P Q (ok a) h k = (h, k)
Ensures-both P Q panicked h k = absurd h
Ensures-both P Q out_of_fuel h k = absurd h
