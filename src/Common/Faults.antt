-- ===== src/Common/Faults.antt =====
-- How a run of C++ code can end other than by returning, and the monad of such runs.
use Prim.Native.Nat.{ℕ}
use mathlib.Core.Path.{◌≡◌, refl}
use mathlib.Core.Bool.{Bool, true, false}

pub data Fault : Type 0 where
  -- `int` arithmetic whose result does not fit: undefined behaviour
  signed_overflow : Fault
  -- `atoi` of a text whose value does not fit `int`: undefined behaviour
  atoi_overflow : Fault
  -- a read of a local array that was never written
  uninitialized : Fault
  -- a call that waits for ever
  blocked : Fault
  -- an access outside of an array or a vector
  out_of_bounds : Fault
  -- an access through a pointer to an object that was deleted
  use_after_free : Fault
  -- a string function that is given a null pointer
  null_pointer : Fault
  -- `assert(false)`
  assert_failed : Fault
  -- a call of an empty `std::function`
  bad_function_call : Fault
  -- `exit(code)`
  exited : ℕ → Fault
  -- a `char` that <ctype.h> leaves undefined
  bad_char : Fault
  -- a loop that used up the rounds the model gives it
  out_of_fuel : Fault

pub data Result {ℓ} (A : Type ℓ) : Type ℓ where
  ok : A → Result A
  fault : Fault → Result A

infixl 5 ◌>>=◌ ◌>>◌
abbrev pub ◌>>=◌ {ℓ κ} : {A : Type ℓ} {B : Type κ} → Result A → (A → Result B) → Result B
ok a >>= f = f a
fault e >>= f = fault e

abbrev pub ◌>>◌ {ℓ} : {B : Type ℓ} → Result (Unit {0}) → Result B → Result B
m >> k = m >>= λ _. k

-- `assert(b)`
abbrev pub assert : Bool → Result (Unit {0})
assert true = ok tt
assert false = fault Fault.assert_failed

-- A run that returns has run both of its parts.
pub bind_ok {ℓ κ} :
    {A : Type ℓ} {B : Type κ} (m : Result A) (f : A → Result B) (b : B)
    → (m >>= f) ≡ ok b
    → (a : A) × (m ≡ ok a) × (f a ≡ ok b)
bind_ok (ok a) f b e = (a, refl, e)
bind_ok (fault x) f b e = absurd (cc e)
