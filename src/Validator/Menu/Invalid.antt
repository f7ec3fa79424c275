-- ===== src/Validator/Menu/Invalid.antt =====
-- A choice that is no choice.
use ticket_ist.Prelude.{ℕ, ◌≡◌, false, [], arith}
use ticket_ist.Prelude.Int.{pos, ◌==ℤ◌}
use ticket_ist.Text.Input.{read_int}
use ticket_ist.Client.Desk.{Machine, Desk, running, continue, ◌>>=◌, ◌>>◌}
use ticket_ist.Validator.{request}
use ticket_ist.Validator.Menu.{menu_round}

module _ {Price : Type 0} (machine : Machine Price) (rounds : ℕ) where
  -- After a number that is no choice a validator sends nothing and waits for a reply, for ever if
  -- none is there.
  pub menu_round-running :
      (d : Desk)
      → (read_int machine.any_int d.input).1.fail ≡ false
      → ((read_int machine.any_int d.input).0 ==ℤ pos 1) ≡ false
      → ((read_int machine.any_int d.input).0 ==ℤ pos 2) ≡ false
      → ((read_int machine.any_int d.input).0 ==ℤ pos 3) ≡ false
      → d.replies ≡ []
      → ((menu_round machine rounds tt d).0 ≡ running)
        × ((menu_round machine rounds tt d).1.sent ≡ d.sent)
  unfolding menu_round request continue ◌>>=◌ ◌>>◌
  menu_round-running d good one two three none_left =
      ground (arith, good, one, two, three, none_left)
