-- ===== src/Prelude/Action.antt =====
-- Actions: functions of a state that may throw. What was written before a throw stays written, so
-- the state comes back beside the exception too.
use mathlib.Core.Bool.{Bool, true, false}
use mathlib.Core.Option.{Option, none, some}
use ticket_ist.Prelude.Exceptions.{Exception, Result, ok, throw}

abbrev pub Action : Type 0 → Type 0 → Type 0
Action S A = S → Result A × S

module _ {S A : Type 0} where
  abbrev pub pure : A → Action S A
  pure a s = (ok a, s)

  abbrev pub raise : Exception → Action S A
  raise e s = (throw e, s)

  -- a call that never throws
  abbrev pub call : (S → A × S) → Action S A
  call f s = let (a, s') = f s in (ok a, s')

  abbrev pub lift : Result A → Action S A
  lift r s = (r, s)

  abbrev pub or_raise : Option A → Exception → Action S A
  or_raise none e s = (throw e, s)
  or_raise (some a) e s = (ok a, s)

module _ {S A B : Type 0} where
  infixl 5 ◌>>=◌ ◌>>◌
  abbrev pub ◌>>=◌ : Action S A → (A → Action S B) → Action S B
  ◌>>=◌ m f s = let (r, s') = m s in elim r [ ok a ↦ f a s' | throw e ↦ (throw e, s') ]

  abbrev pub ◌>>◌ : Action S A → Action S B → Action S B
  m >> k = m >>= λ _. k

module _ {S : Type 0} where
  abbrev pub raise_if : Bool → Exception → Action S (Unit {0})
  raise_if true e s = (throw e, s)
  raise_if false e s = (ok tt, s)

  abbrev pub raise_unless : Bool → Exception → Action S (Unit {0})
  raise_unless true e s = (ok tt, s)
  raise_unless false e s = (throw e, s)

  -- a call that changes the state and returns nothing
  abbrev pub modify : (S → S) → Action S (Unit {0})
  modify f s = (ok tt, f s)
