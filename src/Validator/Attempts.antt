-- ===== src/Validator/Attempts.antt =====
-- What `authenticate` of a validator returns.
use ticket_ist.Prelude.{
  ℕ, suc, ◌≡◌, ◌↔◌, ◌≢◌, Bool, true, false, Option, none, some, arith, if◌then◌else◌,
}
use ticket_ist.Client.Desk.{
  Machine, Desk, Outcome, done, failed, exited, running, continue, pure, ◌>>=◌, ◌>>◌,
}
use ticket_ist.Validator.{try_log_in, authenticate}

dropped :
    {A : Type 0} (x : Outcome A × Desk) (b : Bool)
    → (continue (λ _. pure {A = Option Bool} none) x).0 ≢ done (some b)
unfolding continue
dropped (done a, d) b h = cc
dropped (failed e, d) b h = cc
dropped (exited, d) b h = cc
dropped (running, d) b h = cc

module _ {Price : Type 0} (machine : Machine Price) (rounds : ℕ) where
  returned :
      (tries : ℕ) (b : Bool) (x : Outcome Bool × Desk)
      → ((continue
            (λ entered.
              if entered
              then pure (some true)
              else (authenticate machine rounds tries >> pure none))
            x).0
          ≡ done (some b))
        ↔ ((x.0 ≡ done true) × (b ≡ true))
  unfolding continue ◌>>◌
  returned tries b (done true, d) = ground arith
  returned tries b (done false, d) = (
    λ h. absurd (dropped (authenticate machine rounds tries d) b h),
    λ h. absurd (ground (arith, h)),
  )
  returned tries b (failed e, d) = ground arith
  returned tries b (exited, d) = ground arith
  returned tries b (running, d) = ground arith

  -- The log-in of a validator returns a value that is defined exactly if its first try succeeds, and
  -- the value is true then; so it returns none after a refusal, also if a later try succeeds.
  pub authenticate_first :
      (tries : ℕ) (b : Bool) (d : Desk)
      → ((authenticate machine rounds (suc tries) d).0 ≡ done (some b))
        ↔ (((try_log_in machine rounds d).0 ≡ done true) × (b ≡ true))
  unfolding authenticate ◌>>=◌
  authenticate_first tries b d = returned tries b (try_log_in machine rounds d)
