-- ===== src/Controller/Dispatch.antt =====
-- `messageHandler` of `class Controller`: the action of a message, and its handler.
use ticket_ist.Prelude.{ℕ, none, some, [], Bytes, split_at, Result, ok, throw}
use ticket_ist.Prelude.Action.{Action, pure, lift, ◌>>=◌}
use ticket_ist.Platform.{Platform}
use ticket_ist.Text.Decimal.{stoi}
use ticket_ist.Message.Action.{
  ActionType, from_int, sign_up, log_in, log_in_validator, ticket_sell, get_available_tickets,
  buy_ticket, accept, reject, accept_auth, reject_auth, validate_ticket, check_integrity, log_out,
  sell_ticket, unknown, unnamed,
}
use ticket_ist.Message.Accept
use ticket_ist.Message.Reject
use ticket_ist.Message.SignUp
use ticket_ist.Message.LogIn
use ticket_ist.Message.LogInValidator
use ticket_ist.Message.LogOut
use ticket_ist.Message.GetAvailableTickets
use ticket_ist.Message.BuyTicket
use ticket_ist.Message.SellTicket
use ticket_ist.Message.ValidateTicket
use ticket_ist.Message.CheckIntegrity
use ticket_ist.Controller.State.{Controller, Inputs}
use ticket_ist.Controller.Users.{
  do_sign_up_action, do_log_in_action, do_log_in_validator_action, do_logout_action,
}
use ticket_ist.Controller.Shop.{
  do_get_available_tickets_action, do_buy_ticket_action, do_sell_ticket_action,
}
use ticket_ist.Controller.Door.{do_validate_ticket_action, do_check_integrity_action}

-- The number in front of the first colon.
unfoldable pub get_action_type : Bytes → Result ActionType
get_action_type message = elim (split_at b':' message) [
  | none ↦ ok unknown
  | some (number, rest) ↦ elim (stoi number) [ ok n ↦ ok (from_int n) | throw e ↦ throw e ]
]

module _ (p : Platform) where
  -- What a deserializer throws is not caught here.
  unfoldable pub handle_action : Inputs → ActionType → ℕ → Bytes → Action (Controller p) Bytes
  handle_action inputs get_available_tickets ssl received = do
    m ← lift (GetAvailableTickets.deserialize received)
    do_get_available_tickets_action p m
  handle_action inputs buy_ticket ssl received = do
    m ← lift (BuyTicket.deserialize received)
    do_buy_ticket_action p inputs m
  handle_action inputs log_in_validator ssl received = do
    m ← lift (LogInValidator.deserialize received)
    do_log_in_validator_action p inputs m ssl
  handle_action inputs validate_ticket ssl received = do
    m ← lift (ValidateTicket.deserialize received)
    do_validate_ticket_action p m
  handle_action inputs check_integrity ssl received = do
    m ← lift (CheckIntegrity.deserialize received)
    do_check_integrity_action p m
  handle_action inputs log_out ssl received = do
    m ← lift (LogOut.deserialize received)
    do_logout_action p m
  handle_action inputs sell_ticket ssl received = do
    m ← lift (SellTicket.deserialize p.floats received)
    do_sell_ticket_action p m
  handle_action inputs accept ssl received = do m ← lift (Accept.deserialize received); pure []
  handle_action inputs reject ssl received = do m ← lift (Reject.deserialize received); pure []
  handle_action inputs sign_up ssl received = do
    m ← lift (SignUp.deserialize received)
    do_sign_up_action p inputs m ssl
  handle_action inputs log_in ssl received = do
    m ← lift (LogIn.deserialize received)
    do_log_in_action p inputs m ssl
  handle_action inputs ticket_sell ssl received = pure []
  handle_action inputs accept_auth ssl received = pure []
  handle_action inputs reject_auth ssl received = pure []
  handle_action inputs unknown ssl received = pure []
  handle_action inputs (unnamed n) ssl received = pure []

  unfoldable pub message_handler : Inputs → ℕ → Bytes → Action (Controller p) Bytes
  message_handler inputs ssl received = do
    action ← lift (get_action_type received)
    handle_action inputs action ssl received
