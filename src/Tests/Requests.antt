-- ===== src/Tests/Requests.antt =====
-- Requests and sessions at the sample shop.
use ticket_ist.Prelude.{ℕ, ◌≡◌, refl, true, false, [], ◌∷◌, Bytes, codes, ok, arith, str_eq}
use ticket_ist.Prelude.Int.{ℤ, pos, ◌+ℤ◌}
use ticket_ist.Prelude.Map.{Map, lookup}
use ticket_ist.Platform.{compute_sha256}
use ticket_ist.Ticket.Code.{generate_cookie}
use ticket_ist.Database.{run_select}
use ticket_ist.Database.Schema
use ticket_ist.Repository.Users
use ticket_ist.Message.Authenticated.{AuthenticatedMessage}
use ticket_ist.Message.AcceptAuth
use ticket_ist.Message.BuyTicket
use ticket_ist.Message.BuyTicket.{BuyTicketMessage}
use ticket_ist.Message.ValidateTicket
use ticket_ist.Message.ValidateTicket.{ValidateTicketMessage}
use ticket_ist.Message.LogIn.{LogInMessage}
use ticket_ist.Service.Users.{login_user}
use ticket_ist.Controller.State.{Controller, Session, Inputs}
use ticket_ist.Controller.Sessions.{is_session_correct, next_nonce}
use ticket_ist.Controller.Users.{do_log_in_action, do_logout_action, greeting}
use ticket_ist.Controller.Shop.{
  do_buy_ticket_action, do_get_available_tickets_action, do_sell_ticket_action,
}
use ticket_ist.Controller.Door.{do_validate_ticket_action, do_check_integrity_action}
use ticket_ist.Controller.Dispatch.{message_handler}
use ticket_ist.Controller.Nonces.{next_nonce-is_session_correct}
use ticket_ist.Controller.Steps.{rejection}
use ticket_ist.Controller.Requests.{
  message_handler-buy_ticket_once, message_handler-validate_ticket_once,
}
use ticket_ist.Controller.Guarded.{IsAllowed, user_session_required, validator_session_required}
use ticket_ist.Controller.Lifetimes.{
  do_log_in_action-is_session_correct, do_logout_action-is_session_correct,
}
use ticket_ist.Tests.Server.{local}
use ticket_ist.Tests.Shop.{tables, inputs}

abbrev sessions : Map Session
sessions = (codes "ana", record { cookie = codes "COOKIE_x"; nonce = pos 42 }) ∷ []

abbrev server : Controller local
server = record {
  conn = tables;
  event_cache = [];
  tickets_info_cache = [];
  auth_map = sessions;
  validator_map = sessions;
  ssl_to_username = (4, codes "ana") ∷ [];
}

abbrev signed : AuthenticatedMessage
signed = record { username = codes "ana"; session_cookies = codes "COOKIE_x"; nonce = pos 43 }

abbrev stale : AuthenticatedMessage
stale = record signed { nonce = pos 42 }

correct : is_session_correct sessions (codes "ana") (codes "COOKIE_x") (pos 43) ≡ true
unfolding is_session_correct
correct = refl

not-IsAllowed : ¬ IsAllowed sessions stale
unfolding lookup str_eq ◌+ℤ◌
not-IsAllowed h = ground (arith, h.known, h.next_nonce)

abbrev purchase : BuyTicketMessage
purchase = record { base = signed; ticket_id = pos 7; event_name = codes "Gala" }

message_handler-buy_ticket_once_example :
    message_handler local inputs 5
      (BuyTicket.serialize purchase)
      (message_handler local inputs 4 (BuyTicket.serialize purchase) server).1
    ≡ (ok rejection, (message_handler local inputs 4 (BuyTicket.serialize purchase) server).1)
message_handler-buy_ticket_once_example =
    message_handler-buy_ticket_once local inputs inputs 4 5 server purchase (omega arith)
      (omega arith) (omega arith) (omega arith) ((cc), omega arith) correct

abbrev entry : ValidateTicketMessage
entry = record { base = signed; val_code = codes "oldCode123" }

message_handler-validate_ticket_once_example :
    message_handler local inputs 5
      (ValidateTicket.serialize entry)
      (message_handler local inputs 4 (ValidateTicket.serialize entry) server).1
    ≡ (ok rejection, (message_handler local inputs 4 (ValidateTicket.serialize entry) server).1)
message_handler-validate_ticket_once_example =
    message_handler-validate_ticket_once local inputs inputs 4 5 server entry (omega arith)
      (omega arith) (omega arith) ((cc), omega arith) correct

next_nonce-is_session_correct_example :
    (is_session_correct
        (next_nonce (codes "ana") sessions).1
        (codes "ana")
        (codes "COOKIE_x")
        (pos 43)
      ≡ false)
    × (is_session_correct
          (next_nonce (codes "ana") sessions).1
          (codes "ana")
          (codes "COOKIE_x")
          (pos 43 +ℤ pos 1)
        ≡ true)
next_nonce-is_session_correct_example =
    next_nonce-is_session_correct sessions (codes "ana") (codes "COOKIE_x") (pos 43) correct

user_session_required_example :
    ((name : Bytes)
      → do_get_available_tickets_action local (record { base = stale; event_name = name }) server
        ≡ (ok rejection, server))
    × ((i : Inputs) (id : ℤ) (name : Bytes)
        → do_buy_ticket_action local i
            (record { base = stale; ticket_id = id; event_name = name })
            server
          ≡ (ok rejection, server))
    × ((text : Bytes) (price : ℕ)
        → do_sell_ticket_action local
            (record { base = stale; serialized_ticket = text; new_price = price })
            server
          ≡ (ok rejection, server))
user_session_required_example = user_session_required local stale server not-IsAllowed

validator_session_required_example :
    ((code : Bytes)
      → do_validate_ticket_action local (record { base = stale; val_code = code }) server
        ≡ (ok rejection, server))
    × ((code claim : Bytes)
        → do_check_integrity_action local
            (record { base = stale; val_code = code; integrity_code = claim })
            server
          ≡ (ok rejection, server))
validator_session_required_example = validator_session_required local stale server not-IsAllowed

abbrev log_in : LogInMessage
log_in = record { username = codes "ana"; password = codes "pw" }

accepted : (login_user local (codes "ana") (codes "pw") tables).0 ≡ true
unfolding login_user Users.check_password run_select Schema.select_user compute_sha256 str_eq
accepted = refl

do_log_in_action-is_session_correct_example :
    ((do_log_in_action local inputs log_in 4 server).0
      ≡ ok (
          AcceptAuth.serialize (record {
            base = record {
              username = codes "ana";
              session_cookies = generate_cookie inputs.cookie_draw;
              nonce = pos 41 +ℤ pos 1;
            };
            message = greeting (codes "ana");
          })))
    × (is_session_correct
          (do_log_in_action local inputs log_in 4 server).1.auth_map
          (codes "ana")
          (generate_cookie inputs.cookie_draw)
          ((pos 41 +ℤ pos 1) +ℤ pos 1)
        ≡ true)
do_log_in_action-is_session_correct_example =
    do_log_in_action-is_session_correct local inputs log_in 4 server accepted

do_logout_action-is_session_correct_example :
    (is_session_correct
        (do_logout_action local signed server).1.auth_map
        (codes "ana")
        (codes "COOKIE_x")
        (pos 44)
      ≡ false)
    × ((do_logout_action local signed server).1.validator_map ≡ sessions)
do_logout_action-is_session_correct_example =
    do_logout_action-is_session_correct local signed server (codes "COOKIE_x") (pos 44) correct
