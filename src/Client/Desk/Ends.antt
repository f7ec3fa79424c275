-- ===== src/Client/Desk/Ends.antt =====
-- When a loop at the terminal ends: each round that goes on has read something, or the input failed.
use ticket_ist.Prelude.{ℕ, zero, suc, ◌<◌, ◌≡◌, inl, inr, true, arith, length}
use ticket_ist.Text.Input.Progress.{IsShorter, IsSpent}
use ticket_ist.Client.Desk.{
  Desk, Outcome, Dialog, Round, again, leave, done, failed, exited, running, continue, next_round,
  loop,
}

module _ {A : Type 0} where
  -- The dialog ended, or its input has failed.
  abbrev pub IsEnded : Outcome A × Desk → Type 0
  IsEnded (done a, e) = Unit
  IsEnded (failed x, e) = Unit
  IsEnded (exited, e) = Unit
  IsEnded (running, e) = e.input.fail ≡ true

  module _ {S : Type 0} where
    abbrev pub IsProgress : Desk → Outcome (Round S A) × Desk → Type 0
    IsProgress d (done (again s), e) = IsShorter d.input e.input × IsSpent d.input e.input
    IsProgress d (done (leave a), e) = Unit
    IsProgress d (failed x, e) = Unit
    IsProgress d (exited, e) = Unit
    IsProgress d (running, e) = ⊥

    spent_continue :
        (next : S → Dialog A) (d : Desk) (x : Outcome (Round S A) × Desk)
        → d.input.fail ≡ true
        → ((s : S) (e : Desk) → e.input.fail ≡ true → IsEnded (next s e))
        → IsProgress d x
        → IsEnded (continue (next_round next) x)
    unfolding continue
    spent_continue next d (done (again s), e) h ends (short, (stays, less)) = ends s e (stays h)
    spent_continue next d (done (leave a), e) h ends progress = tt
    spent_continue next d (failed x, e) h ends progress = tt
    spent_continue next d (exited, e) h ends progress = tt
    spent_continue next d (running, e) h ends progress = absurd progress

    module _ (body : S → Dialog (Round S A))
        (step : (s : S) (d : Desk) → IsProgress d (body s d)) where
      loop_spent :
          (rounds : ℕ) (s : S) (d : Desk) → d.input.fail ≡ true → IsEnded (loop rounds body s d)
      unfolding loop
      loop_spent zero s d h = h
      loop_spent (suc rounds) s d h =
          spent_continue (loop rounds body) d (body s d) h (loop_spent rounds) (step s d)

      round_continue :
          (rounds : ℕ) (d : Desk) (x : Outcome (Round S A) × Desk)
          → length d.input.unread < suc rounds
          → ((s : S) (e : Desk) → length e.input.unread < rounds → IsEnded (loop rounds body s e))
          → IsProgress d x
          → IsEnded (continue (next_round (loop rounds body)) x)
      unfolding continue
      round_continue rounds d (done (again s), e) h ends (inl fails, spent) =
          loop_spent rounds s e fails
      round_continue rounds d (done (again s), e) h ends (inr less, spent) = ends s e (omega arith)
      round_continue rounds d (done (leave a), e) h ends progress = tt
      round_continue rounds d (failed x, e) h ends progress = tt
      round_continue rounds d (exited, e) h ends progress = tt
      round_continue rounds d (running, e) h ends progress = absurd progress

      -- A round for each byte that is left, and one more, are enough.
      pub loop-IsEnded :
          (rounds : ℕ) (s : S) (d : Desk)
          → length d.input.unread < rounds
          → IsEnded (loop rounds body s d)
      unfolding loop
      loop-IsEnded zero s d h = absurd (omega arith)
      loop-IsEnded (suc rounds) s d h =
          round_continue rounds d (body s d) h (loop-IsEnded rounds) (step s d)
