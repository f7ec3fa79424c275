-- ===== src/Validator/Menu.antt =====
-- The menu of a validator, Validator.cpp, and what it prints of a reply.
pub mod Replies
pub mod Invalid
use ticket_ist.Prelude.{ℕ, Bool, true, false, Option, none, some, Bytes, codes, if◌then◌else◌}
use ticket_ist.Message.Action.{ActionType, accept_auth, reject_auth}
use ticket_ist.Message.Authenticated
use ticket_ist.Message.AcceptAuth
use ticket_ist.Message.RejectAuth
use ticket_ist.Message.Reject
use ticket_ist.Message.LogInValidator
use ticket_ist.Message.LogOut
use ticket_ist.Message.ValidateTicket
use ticket_ist.Message.CheckIntegrity
use ticket_ist.Client.Desk.{
  Machine, Dialog, Round, again, pure, lift, look, say, loop, ask_int, discard_line, ◌>>=◌, ◌>>◌,
}
use ticket_ist.Validator.{
  is_authentication_correct, get_action_type, receive, authenticate, request,
}

abbrev pub ignored : Bytes
ignored = codes "Invalid message received. Try again!"

-- The text of a reply that passed the check.
abbrev text_of : Bytes → ActionType → Dialog Bytes
text_of received accept_auth d = (lift (AcceptAuth.deserialize received) >>= λ m. pure m.message) d
text_of received _ d = (lift (RejectAuth.deserialize received) >>= λ m. pure m.message) d

abbrev is_authenticated : ActionType → Bool
is_authenticated accept_auth = true
is_authenticated reject_auth = true
is_authenticated _ = false

-- What is printed of a reply.
unfoldable pub print_reply : Bytes → Dialog (Unit {0})
unfolding get_action_type Authenticated.deserialize AcceptAuth.deserialize RejectAuth.deserialize
    is_authentication_correct ◌>>=◌ ◌>>◌
print_reply received = do
  action ← get_action_type received
  let checked = do
    m ← lift (Authenticated.deserialize received)
    correct ← look (λ d. is_authentication_correct d.client m)
    if correct then (text_of received action >>= say) else say ignored
  if is_authenticated action then checked else say ignored

module _ {Price : Type 0} (machine : Machine Price) (rounds : ℕ) where
  -- A reply is waited for after every choice, also one that sends nothing.
  unfoldable pub menu_round : Unit {0} → Dialog (Round (Unit {0}) (Unit {0}))
  unfolding request print_reply ◌>>=◌ ◌>>◌
  menu_round _ = do
    choice ← ask_int machine.any_int
    bad ← look (λ d. d.input.fail)
    let refuse = do
      say (codes "Invalid input. Please enter a number.")
      discard_line
      pure (again tt)
    let serve = do
      request machine rounds choice
      received ← receive
      print_reply received
      pure (again tt)
    if bad then refuse else serve

  unfoldable pub validator_menu : Dialog (Unit {0})
  unfolding loop menu_round
  validator_menu = loop rounds menu_round tt

  -- `main`, with whether the program failed; `none` is a log-in whose value is not defined.
  unfoldable pub validator_main : ℕ → Dialog (Option Bool)
  unfolding authenticate validator_menu ◌>>=◌ ◌>>◌
  validator_main tries = do
    entered ← authenticate machine rounds tries
    elim entered [
      | none ↦ pure none
      | some false ↦ say (codes "Something went wrong!") >> pure (some true)
      | some true ↦ validator_menu >> pure (some false)
    ]
