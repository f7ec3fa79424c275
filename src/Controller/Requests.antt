-- ===== src/Controller/Requests.antt =====
-- `messageHandler` from the text of a request on: a request that a client serializes reaches its
-- handler, and the server acts on no text of a request twice.
use ticket_ist.Prelude.{ℕ, ◌≡◌, refl, ◌∙◌, sym, ap, true, Bytes, arith, ok, split_at-append}
use ticket_ist.Platform.{Platform}
use ticket_ist.Text.Decimal.{IsInt, IsLong, stoi-print_all}
use ticket_ist.Message.Action.{ActionType, to_int, from_int, buy_ticket, validate_ticket}
use ticket_ist.Message.Wire.{◌:-◌, tag, IsField, IsLast, print_ℤ-IsField}
use ticket_ist.Message.BuyTicket
use ticket_ist.Message.BuyTicket.{BuyTicketMessage}
use ticket_ist.Message.ValidateTicket
use ticket_ist.Message.ValidateTicket.{ValidateTicketMessage}
use ticket_ist.Controller.State.{Controller, Inputs}
use ticket_ist.Controller.Sessions.{is_session_correct}
use ticket_ist.Controller.Shop.{do_buy_ticket_action}
use ticket_ist.Controller.Door.{do_validate_ticket_action}
use ticket_ist.Controller.Dispatch.{get_action_type, handle_action, message_handler}
use ticket_ist.Controller.Steps.{rejection}
use ticket_ist.Controller.Replay.{do_buy_ticket_action_once, do_validate_ticket_action_once}

-- The action of a text is the number in front of its first colon.
get_action_type-tag :
    (a : ActionType) (rest : Bytes)
    → IsInt (to_int a)
    → from_int (to_int a) ≡ a
    → get_action_type (tag a :- rest) ≡ ok a
unfolding get_action_type
get_action_type-tag a rest fits named = ground (
  arith,
  split_at-append b':' (tag a) rest (print_ℤ-IsField (to_int a)),
  stoi-print_all (to_int a) fits,
  named,
)

buy_ticket_action : (m : BuyTicketMessage) → get_action_type (BuyTicket.serialize m) ≡ ok buy_ticket
unfolding BuyTicket.serialize from_int
buy_ticket_action m = get_action_type-tag buy_ticket _ (omega arith) refl

validate_ticket_action :
    (m : ValidateTicketMessage) → get_action_type (ValidateTicket.serialize m) ≡ ok validate_ticket
unfolding ValidateTicket.serialize from_int
validate_ticket_action m = get_action_type-tag validate_ticket _ (omega arith) refl

module _ (p : Platform) where
  -- The text of a purchase request is dispatched to the handler of purchases with the fields that
  -- the client put in, if its user name and cookie hold no colon, its nonce is a `long`, its ticket
  -- id an `int`, and its event name a line that is not empty.
  pub message_handler-buy_ticket :
      (inputs : Inputs) (ssl : ℕ) (s : Controller p) (m : BuyTicketMessage)
      → IsField m.username
      → IsField m.session_cookies
      → IsLong m.nonce
      → IsInt m.ticket_id
      → IsLast m.event_name
      → message_handler p inputs ssl (BuyTicket.serialize m) s ≡ do_buy_ticket_action p inputs m s
  unfolding message_handler handle_action
  message_handler-buy_ticket inputs ssl s m hu hc hn hi hl =
      rw (buy_ticket_action m)
        (rw (BuyTicket.deserialize-serialize_buy_ticket m hu hc hn hi hl) refl)

  -- The same for the text of a validation, whose validation code is a line that is not empty.
  pub message_handler-validate_ticket :
      (inputs : Inputs) (ssl : ℕ) (s : Controller p) (m : ValidateTicketMessage)
      → IsField m.username
      → IsField m.session_cookies
      → IsLong m.nonce
      → IsLast m.val_code
      → message_handler p inputs ssl (ValidateTicket.serialize m) s
        ≡ do_validate_ticket_action p m s
  unfolding message_handler handle_action
  message_handler-validate_ticket inputs ssl s m hu hc hn hl =
      rw (validate_ticket_action m)
        (rw (ValidateTicket.deserialize-serialize_validate_ticket m hu hc hn hl) refl)

  -- The text of a purchase request that passes the check of its session is rejected when it arrives
  -- a second time, on whatever connection, and changes nothing then. So it is whether the purchase
  -- succeeded or not, and whatever the database does. The request is one that can be read: its user
  -- name and cookie hold no colon, its nonce is a `long`, its ticket id an `int`, and its event name
  -- a line that is not empty.
  pub message_handler-buy_ticket_once :
      (inputs inputs' : Inputs) (ssl ssl' : ℕ) (s : Controller p) (m : BuyTicketMessage)
      → IsField m.username
      → IsField m.session_cookies
      → IsLong m.nonce
      → IsInt m.ticket_id
      → IsLast m.event_name
      → is_session_correct s.auth_map m.username m.session_cookies m.nonce ≡ true
      → message_handler p inputs' ssl'
          (BuyTicket.serialize m)
          (message_handler p inputs ssl (BuyTicket.serialize m) s).1
        ≡ (ok rejection, (message_handler p inputs ssl (BuyTicket.serialize m) s).1)
  message_handler-buy_ticket_once inputs inputs' ssl ssl' s m hu hc hn hi hl correct =
      let handled = message_handler-buy_ticket inputs ssl s m hu hc hn hi hl in
      message_handler-buy_ticket inputs' ssl' _ m hu hc hn hi hl
      ∙ ap (λ x. do_buy_ticket_action p inputs' m x.1) handled
      ∙ do_buy_ticket_action_once p inputs inputs' m s correct
      ∙ ap (λ x. (ok rejection, x.1)) (sym handled)

  -- The text of a validation that passes the check of its validator's session is rejected when it
  -- arrives a second time, on whatever connection, and changes nothing then, if it can be read: its
  -- user name and cookie hold no colon, its nonce is a `long`, and its code a line that is not empty.
  pub message_handler-validate_ticket_once :
      (inputs inputs' : Inputs) (ssl ssl' : ℕ) (s : Controller p) (m : ValidateTicketMessage)
      → IsField m.username
      → IsField m.session_cookies
      → IsLong m.nonce
      → IsLast m.val_code
      → is_session_correct s.validator_map m.username m.session_cookies m.nonce ≡ true
      → message_handler p inputs' ssl'
          (ValidateTicket.serialize m)
          (message_handler p inputs ssl (ValidateTicket.serialize m) s).1
        ≡ (ok rejection, (message_handler p inputs ssl (ValidateTicket.serialize m) s).1)
  message_handler-validate_ticket_once inputs inputs' ssl ssl' s m hu hc hn hl correct =
      let handled = message_handler-validate_ticket inputs ssl s m hu hc hn hl in
      message_handler-validate_ticket inputs' ssl' _ m hu hc hn hl
      ∙ ap (λ x. do_validate_ticket_action p m x.1) handled
      ∙ do_validate_ticket_action_once p m s correct
      ∙ ap (λ x. (ok rejection, x.1)) (sym handled)
