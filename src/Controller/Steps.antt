-- ===== src/Controller/Steps.antt =====
-- The steps of the handlers as parts of a `try`: the replies move the nonce on, and the services
-- keep the sessions and throw nothing else than what is caught.
use ticket_ist.Prelude.{ℕ, ◌≡◌, refl, ap, ◌∙◌, true, false, [], Bytes, ok}
use ticket_ist.Prelude.Int.{ℤ}
use ticket_ist.Prelude.Map.{Map}
use ticket_ist.Prelude.Action.{Action}
use ticket_ist.Platform.{Platform}
use ticket_ist.Ticket.{Tm}
use ticket_ist.Message.Authenticated.{AuthenticatedMessage}
use ticket_ist.Message.Reject
use ticket_ist.Service.Users
use ticket_ist.Service.Events
use ticket_ist.Service.Tickets
use ticket_ist.Service.Tickets.Throws.{
  get_event_by_name_throws, get_user_id_throws, buy_ticket_throws, validate_ticket_throws,
  get_all_available_tickets_throws,
}
use ticket_ist.Controller.State.{Controller, Session, on_events, on_users, on_tickets}
use ticket_ist.Controller.Sessions.{is_session_correct, next_nonce}
use ticket_ist.Controller.Replies.{
  create_reject_message, create_accept_auth_message, create_reject_auth_message,
  create_validator_accept_auth_message, create_validator_reject_auth_message,
}
use ticket_ist.Controller.Settles.{Replying, Settling, Safe}
use ticket_ist.Controller.Shop.{checked}
use ticket_ist.Controller.Door.{validator_checked}

-- The sessions of the users, and of the validators.
abbrev pub users : {p : Platform} → Controller p → Map Session
users s = s.auth_map

abbrev pub validators : {p : Platform} → Controller p → Map Session
validators s = s.validator_map

-- The reply to a request that fails the check: its text is empty.
abbrev pub rejection : Bytes
rejection = Reject.serialize (record { message = [] })

module _ (p : Platform) (m : AuthenticatedMessage) (rest : Action (Controller p) Bytes)
    (s : Controller p) where
  -- A request that fails the check is rejected, and nothing else is done.
  pub checked_rejected :
      is_session_correct s.auth_map m.username m.session_cookies m.nonce ≡ false
      → checked p m rest s ≡ (ok rejection, s)
  unfolding create_reject_message
  checked_rejected h = rw h refl

  pub validator_checked_rejected :
      is_session_correct s.validator_map m.username m.session_cookies m.nonce ≡ false
      → validator_checked p m rest s ≡ (ok rejection, s)
  unfolding create_reject_message
  validator_checked_rejected h = rw h refl

module _ (p : Platform) (username : Bytes) (sessions : Map Session) where
  pub create_accept_auth_message-Replying :
      (text : Bytes) → Replying users username sessions (create_accept_auth_message p text username)
  unfolding create_accept_auth_message
  create_accept_auth_message-Replying text = record {
    at = λ s h. ap (λ m. (next_nonce username m).1) h;
  }

  pub create_reject_auth_message-Replying :
      (text : Bytes) → Replying users username sessions (create_reject_auth_message p text username)
  unfolding create_reject_auth_message
  create_reject_auth_message-Replying text = record {
    at = λ s h. ap (λ m. (next_nonce username m).1) h;
  }

  pub create_validator_accept_auth_message-Replying :
      (text : Bytes)
      → Replying validators username sessions (create_validator_accept_auth_message p text username)
  unfolding create_validator_accept_auth_message
  create_validator_accept_auth_message-Replying text = record {
    at = λ s h. ap (λ m. (next_nonce username m).1) h;
  }

  pub create_validator_reject_auth_message-Replying :
      (text : Bytes)
      → Replying validators username sessions (create_validator_reject_auth_message p text username)
  unfolding create_validator_reject_auth_message
  create_validator_reject_auth_message-Replying text = record {
    at = λ s h. ap (λ m. (next_nonce username m).1) h;
  }

  pub get_event_by_name-Safe :
      (name : Bytes) → Safe users username sessions (on_events (Events.get_event_by_name p name))
  get_event_by_name-Safe name = record {
    throws = λ s. get_event_by_name_throws p name _;
    keeps = λ s. refl;
  }

  pub get_user_id-Safe :
      (name : Bytes) → Safe users username sessions (on_users {p = p} (Users.get_user_id p name))
  get_user_id-Safe name = record { throws = λ s. get_user_id_throws p name _; keeps = λ s. refl }

  pub get_all_available_tickets-Safe :
      (e : ℤ)
      → Safe users username sessions
          (on_tickets (Tickets.get_all_available_tickets_by_event_id p e))
  get_all_available_tickets-Safe e = record {
    throws = λ s. get_all_available_tickets_throws p e _;
    keeps = λ s. refl;
  }

  pub buy_ticket-Safe :
      (now : Tm) (draw : ℕ → ℕ) (id event user : ℤ)
      → Safe users username sessions (on_tickets (Tickets.buy_ticket p now draw id event user))
  buy_ticket-Safe now draw id event user = record {
    throws = λ s. buy_ticket_throws p now draw id event user _;
    keeps = λ s. refl;
  }

  pub validate_ticket-Safe :
      (code : Bytes)
      → Safe validators username sessions (on_tickets (Tickets.validate_ticket p code))
  validate_ticket-Safe code = record {
    throws = λ s. validate_ticket_throws p code _;
    keeps = λ s. refl;
  }

  -- The body of a `try` behind a check that passes.
  pub checked-Settling :
      (m : AuthenticatedMessage) (rest : Action (Controller p) Bytes)
      → is_session_correct sessions m.username m.session_cookies m.nonce ≡ true
      → Settling users username sessions rest
      → Settling users username sessions (checked p m rest)
  checked-Settling m rest h k = record {
    at = λ s e.
        rw (ap (λ x. is_session_correct x m.username m.session_cookies m.nonce) e ∙ h) (k.at s e);
  }

  pub validator_checked-Settling :
      (m : AuthenticatedMessage) (rest : Action (Controller p) Bytes)
      → is_session_correct sessions m.username m.session_cookies m.nonce ≡ true
      → Settling validators username sessions rest
      → Settling validators username sessions (validator_checked p m rest)
  validator_checked-Settling m rest h k = record {
    at = λ s e.
        rw (ap (λ x. is_session_correct x m.username m.session_cookies m.nonce) e ∙ h) (k.at s e);
  }
