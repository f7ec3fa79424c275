-- ===== src/Client/Desk/Leaves.antt =====
-- What holds of the value that a dialog ends with, and of the desk then.
use ticket_ist.Prelude.{ℕ, zero, suc}
use ticket_ist.Client.Desk.{
  Desk, Outcome, Dialog, Round, again, leave, done, failed, exited, running, continue, next_round,
  loop,
}
use ticket_ist.Client.Desk.Keeps.{Allows}

module _ {A : Type 0} (P : A → Desk → Type 0) where
  abbrev pub OnDone : Outcome A × Desk → Type 0
  OnDone (done a, d) = P a d
  OnDone (failed e, d) = Unit
  OnDone (exited, d) = Unit
  OnDone (running, d) = Unit

  module _ {S : Type 0} where
    abbrev pub OnRound : Outcome (Round S A) × Desk → Type 0
    OnRound (done (again s), d) = Unit
    OnRound (done (leave a), d) = P a d
    OnRound (failed e, d) = Unit
    OnRound (exited, d) = Unit
    OnRound (running, d) = Unit

    next_on :
        (next : S → Dialog A)
        → ((s : S) (d : Desk) → OnDone (next s d))
        → (x : Outcome (Round S A) × Desk) → OnRound x
        → OnDone (continue (next_round next) x)
    unfolding continue
    next_on next ends (done (again s), d) h = ends s d
    next_on next ends (done (leave a), d) h = h
    next_on next ends (failed e, d) h = tt
    next_on next ends (exited, d) h = tt
    next_on next ends (running, d) h = tt

    -- What the round that leaves a loop ensures holds behind the loop.
    pub loop-OnDone :
        (body : S → Dialog (Round S A))
        → ((s : S) (d : Desk) → OnRound (body s d))
        → (rounds : ℕ) (s : S) (d : Desk) → OnDone (loop rounds body s d)
    unfolding loop
    loop-OnDone body ends zero s d = tt
    loop-OnDone body ends (suc rounds) s d =
        next_on (loop rounds body) (loop-OnDone body ends rounds) (body s d) (ends s d)

module _ {R : Desk → Desk → Type 0} (allows : Allows R) {A B : Type 0} (P : A → Desk → Type 0) where
  -- The rest of a chain may rely on what its first part ensures.
  pub continue-on :
      (f : A → Dialog B) (d : Desk) (x : Outcome A × Desk)
      → R d x.1
      → OnDone P x
      → ((a : A) (e : Desk) → P a e → R e (f a e).1)
      → R d (continue f x).1
  unfolding continue
  continue-on f d (done a, e) h p next = allows.chain d e (f a e).1 h (next a e p)
  continue-on f d (failed e, d') h p next = h
  continue-on f d (exited, d') h p next = h
  continue-on f d (running, d') h p next = h
