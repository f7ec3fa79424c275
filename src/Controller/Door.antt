-- ===== src/Controller/Door.antt =====
-- The handlers of `class Controller` for the validators.
use ticket_ist.Prelude.{not, [], ◌++◌, Bytes, codes, if◌then◌else◌}
use ticket_ist.Prelude.Action.{Action, ◌>>=◌}
use ticket_ist.Platform.{Platform}
use ticket_ist.Message.Authenticated.{AuthenticatedMessage}
use ticket_ist.Message.ValidateTicket.{ValidateTicketMessage}
use ticket_ist.Message.CheckIntegrity.{CheckIntegrityMessage}
use ticket_ist.Service.Tickets
use ticket_ist.Controller.State.{Controller, on_tickets, catch_invalid}
use ticket_ist.Controller.Sessions.{is_session_correct}
use ticket_ist.Controller.Replies.{
  create_reject_message, create_validator_accept_auth_message, create_validator_reject_auth_message,
}

module _ (p : Platform) where
  -- The same check as for users, on the validators' sessions.
  abbrev pub validator_checked :
      AuthenticatedMessage → Action (Controller p) Bytes → Action (Controller p) Bytes
  validator_checked m rest s =
      if not (is_session_correct s.validator_map m.username m.session_cookies m.nonce)
      then create_reject_message p [] s
      else rest s

  -- The body of the `try` behind the check, of each handler.
  abbrev pub admit : ValidateTicketMessage → Action (Controller p) Bytes
  admit m = do
    (valid, info) ← on_tickets (Tickets.validate_ticket p m.val_code)
    if valid
        then create_validator_accept_auth_message p
            (codes "Ticket validated successfully.\n"
              ++ codes "Ticket for seat:"
              ++ info
              ++ codes "\n")
            m.username
        else create_validator_reject_auth_message p
            (codes "Ticket validation failed.\n" ++ info ++ codes "\n") m.username

  abbrev pub compare_integrity : CheckIntegrityMessage → Action (Controller p) Bytes
  compare_integrity m = do
    (valid, message) ← on_tickets (Tickets.check_integrity p m.val_code m.integrity_code)
    if valid
        then create_validator_accept_auth_message p message m.username
        else create_validator_reject_auth_message p message m.username

  unfoldable pub do_validate_ticket_action : ValidateTicketMessage → Action (Controller p) Bytes
  do_validate_ticket_action m =
      catch_invalid (validator_checked m.base (admit m))
        (λ what. create_validator_reject_auth_message p what m.username)

  unfoldable pub do_check_integrity_action : CheckIntegrityMessage → Action (Controller p) Bytes
  do_check_integrity_action m =
      catch_invalid (validator_checked m.base (compare_integrity m))
        (λ what. create_validator_reject_auth_message p what m.username)
