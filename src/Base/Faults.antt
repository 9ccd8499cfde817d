-- ===== src/Base/Faults.antt =====
-- What ends the process: an exception that nothing catches, or a use of the standard library outside
-- its preconditions. The program has no handler, so a fault is final.
use mathlib.Core.Path.{◌≡◌, refl}
use mathlib.Core.Logic.{◌⊎◌, inl, inr}
use mathlib.Core.Bool.{Bool, true, false}

pub data Fault : Type 0 where
  -- `std::underflow_error` of `parse_from_string`
  wrong_header : Fault
  -- `std::out_of_range` of `substr`, `at` and `stoi`
  out_of_range : Fault
  -- `std::invalid_argument` of `stoi`
  invalid_argument : Fault
  -- `std::length_error` of `resize`
  length_error : Fault
  -- `std::runtime_error`
  runtime_error : Fault
  -- undefined behaviour, as `front()` of an empty container
  undefined : Fault
  -- no behaviour of the program: the fuel that bounds a loop of the model ran out
  out_of_fuel : Fault

pub data Outcome {ℓ} (A : Type ℓ) : Type ℓ where
  ok : A → Outcome A
  fault : Fault → Outcome A

infixl 5 ◌>>=◌ ◌>>◌
abbrev pub ◌>>=◌ {ℓ κ} : {A : Type ℓ} {B : Type κ} → Outcome A → (A → Outcome B) → Outcome B
ok a >>= f = f a
fault e >>= f = fault e

abbrev pub ◌>>◌ {ℓ} : {B : Type ℓ} → Outcome (Unit {0}) → Outcome B → Outcome B
m >> k = m >>= λ _. k

abbrev pub guard : Bool → Fault → Outcome (Unit {0})
guard true e = ok tt
guard false e = fault e

-- To split on a computed outcome and keep the equation.
pub Outcome-cases {ℓ} :
    {A : Type ℓ} (o : Outcome A) → ((a : A) × (o ≡ ok a)) ⊎ ((e : Fault) × (o ≡ fault e))
Outcome-cases (ok a) = inl (a, refl)
Outcome-cases (fault e) = inr (e, refl)
