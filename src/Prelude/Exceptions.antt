-- ===== src/Prelude/Exceptions.antt =====
-- Exceptions as values, and actions: functions of a state that may throw. What was written before
-- a throw stays written, so the state comes back beside the exception too.
use mathlib.Core.Bool.{Bool, true, false}
use mathlib.Core.Option.{Option, none, some}
use ticket_ist.Prelude.Text.{Bytes}

-- The standard exceptions that the program throws or catches, with their `what()`.
pub data Exception : Type 0 where
  invalid_argument out_of_range runtime_error : Bytes → Exception

pub data Result (A : Type 0) : Type 0 where
  ok : A → Result A
  throw : Exception → Result A

-- A chain of calls that may throw and keep no state.
infixl 5 ◌>>=◌ ◌>>◌
abbrev pub ◌>>=◌ : {A B : Type 0} → Result A → (A → Result B) → Result B
ok a >>= f = f a
throw e >>= f = throw e

abbrev pub ◌>>◌ : {B : Type 0} → Result (Unit {0}) → Result B → Result B
m >> k = m >>= λ _. k

abbrev pub throw_unless : Bool → Exception → Result (Unit {0})
throw_unless true e = ok tt
throw_unless false e = throw e

abbrev pub or_throw : {A : Type 0} → Option A → Exception → Result A
or_throw none e = throw e
or_throw (some a) e = ok a
