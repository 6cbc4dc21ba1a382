-- ===== src/Prelude/Effects.antt =====
-- A method of a service: it reads and writes a store, and returns or throws. What was written
-- before a throw stays written, unless the method wraps it in a database transaction.
use Prim.Native.Nat.{ℕ}
use mathlib.Core.Path.{◌≡◌, refl}
use mathlib.Core.Logic.{◌⊎◌, inl, inr}
use mathlib.Core.Bool.{Bool, true, false}
use mathlib.Core.Option.{Option, none, some}
use muhammad_tours_and_trave.Prelude.Int.{ℤ}

-- The exceptions that the services throw, by their class. The text of a message is left out.
pub data Error : Type 0 where
  bad_request unauthorized conflict forbidden not_found : Error
  insufficient_funds : ℤ → ℤ → ℕ → Error
  price_changed : ℤ → ℤ → ℕ → Error
  failure : Error

pub data Result {ℓ} (A : Type ℓ) : Type ℓ where
  ok : A → Result A
  err : Error → Result A

abbrev pub Action : Type 0 → Type 0 → Type 0
Action S A = S → Result A × S

-- What follows a step: the rest of the method, unless the step threw.
abbrev pub continue : {S A B : Type 0} → (A → Action S B) → Result A × S → Result B × S
continue f (ok a, s) = f a s
continue f (err e, s) = (err e, s)

infixl 5 ◌>>=◌ ◌>>◌
abbrev pub ◌>>=◌ : {S A B : Type 0} → Action S A → (A → Action S B) → Action S B
◌>>=◌ m f s = continue f (m s)

abbrev pub ◌>>◌ : {S A B : Type 0} → Action S A → Action S B → Action S B
m >> k = m >>= λ _. k

abbrev pub pure : {S A : Type 0} → A → Action S A
pure a s = (ok a, s)

abbrev pub throw : {S A : Type 0} → Error → Action S A
throw e s = (err e, s)

-- `if (c) throw e`
abbrev pub throw_if : {S : Type 0} → Bool → Error → Action S (Unit {0})
throw_if true e s = (err e, s)
throw_if false e s = (ok tt, s)

abbrev pub gets : {S A : Type 0} → (S → A) → Action S A
gets f s = (ok (f s), s)

abbrev pub modify : {S : Type 0} → (S → S) → Action S (Unit {0})
modify f s = (ok tt, f s)

-- `if (!x) throw e`, and the value otherwise
abbrev pub or_throw : {S A : Type 0} → Option A → Error → Action S A
or_throw none e s = (err e, s)
or_throw (some a) e s = (ok a, s)

-- A call that reads no table: it returns or throws.
abbrev pub from_result : {S A : Type 0} → Result A → Action S A
from_result (ok a) s = (ok a, s)
from_result (err e) s = (err e, s)

-- `if (x) return x;`, before the rest of the method
abbrev pub return_some : {S A : Type 0} → Option A → Action S A → Action S A
return_some (some a) m s = (ok a, s)
return_some none m s = m s

-- `prisma.$transaction`: a throw inside rolls everything back.
abbrev pub rollback : {S A : Type 0} → S → Result A × S → Result A × S
rollback s (ok a, s') = (ok a, s')
rollback s (err e, s') = (err e, s)

abbrev pub transaction : {S A : Type 0} → Action S A → Action S A
transaction m s = rollback s (m s)

-- A call of another component, which has its tables within these.
abbrev pub put_back : {S T A : Type 0} → (T → S → S) → S → Result A × T → Result A × S
put_back put s (r, t) = (r, put t s)

abbrev pub zoom : {S T A : Type 0} → (S → T) → (T → S → S) → Action T A → Action S A
zoom get put m s = put_back put s (m (get s))

-- `try { m } catch (e) { ... }`: what was thrown, as a value, for the rest of the method.
abbrev pub seize : {S A : Type 0} → Result A × S → Result (Result A) × S
seize (r, s) = (ok r, s)

abbrev pub attempt : {S A : Type 0} → Action S A → Action S (Result A)
attempt m s = seize (m s)

-- `m.catch(() => null)`
abbrev pub caught : {A : Type 0} → Result A → Option A
caught (ok a) = some a
caught (err e) = none

-- What threw did not return.
pub err-ok {ℓ} : {A : Type ℓ} {e : Error} {a : A} → err e ≡ ok a → ⊥
err-ok h = cc

pub Result-cases {ℓ} :
    {A : Type ℓ} (r : Result A) → ((a : A) × (r ≡ ok a)) ⊎ ((e : Error) × (r ≡ err e))
Result-cases (ok a) = inl (a, refl)
Result-cases (err e) = inr (e, refl)

-- How a call ended, with the store that it left.
pub Call-cases {ℓ} :
    {A : Type ℓ} {S : Type 0} (r : Result A × S)
    → ((a : A) × (s : S) × (r ≡ (ok a, s))) ⊎ ((e : Error) × (s : S) × (r ≡ (err e, s)))
Call-cases (ok a, s) = inl (a, s, refl)
Call-cases (err e, s) = inr (e, s, refl)
