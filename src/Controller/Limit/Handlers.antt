-- ===== src/Controller/Limit/Handlers.antt =====
-- Every handler keeps the limit.
use ticket_ist.Prelude.{ℕ, Bytes, codes, Bool-cases, inl, inr}
use ticket_ist.Prelude.Int.{ℤ}
use ticket_ist.Prelude.Action.{Action, call, ◌>>=◌, ◌>>◌, modify}
use ticket_ist.Platform.{Platform}
use ticket_ist.Database.Laws.{IsReliable}
use ticket_ist.Message.Authenticated.{AuthenticatedMessage}
use ticket_ist.Message.SignUp.{SignUpMessage}
use ticket_ist.Message.LogIn.{LogInMessage}
use ticket_ist.Message.LogInValidator.{LogInValidatorMessage}
use ticket_ist.Message.LogOut.{LogOutMessage}
use ticket_ist.Message.GetAvailableTickets.{GetAvailableTicketsMessage}
use ticket_ist.Message.BuyTicket.{BuyTicketMessage}
use ticket_ist.Message.SellTicket.{SellTicketMessage}
use ticket_ist.Message.ValidateTicket.{ValidateTicketMessage}
use ticket_ist.Message.CheckIntegrity.{CheckIntegrityMessage}
use ticket_ist.Ticket.{Tm}
use ticket_ist.Ticket.Format
use ticket_ist.Service.Users
use ticket_ist.Service.Events
use ticket_ist.Service.Tickets
use ticket_ist.Service.Tickets.Limit.{buy_ticket_limit}
use ticket_ist.Service.Tickets.Kept.{
  same_tables, same_tickets, sign_up-IsKept, login_user_tables, login_validator_tables,
  get_user_id_tables, get_event_by_name_tables, get_all_available_tables, check_integrity_tables,
  sell_ticket-ticket, validate_ticket-IsKept,
}
use ticket_ist.Controller.State.{Controller, Inputs, on_events, on_tickets}
use ticket_ist.Controller.Sessions.{
  is_session_correct, save_ssl, authenticate_user, authenticate_validator, logout_user,
  logout_validator,
}
use ticket_ist.Controller.Replies.{
  create_accept_message, create_reject_message, create_accept_auth_message,
  create_reject_auth_message, create_validator_accept_auth_message,
  create_validator_reject_auth_message,
}
use ticket_ist.Controller.Users.{
  do_sign_up_action, do_log_in_action, do_log_in_validator_action, do_logout_action, greeting,
}
use ticket_ist.Controller.Shop.{
  list_tickets, purchase, put_on_sale, listing, checked, do_get_available_tickets_action,
  handle_get_available_tickets_error,
}
use ticket_ist.Controller.Door.{admit, compare_integrity, validator_checked}
use ticket_ist.Controller.Limit.{
  Limited, Limited-bind, Limited-catch, Limited-if, Limited-users, Limited-events, Limited-tickets,
}

module _ (p : Platform) where
  accepted : (text name : Bytes) → Limited (create_accept_auth_message p text name)
  unfolding create_accept_auth_message
  accepted text name = record { at = λ s h. h }

  pub rejected : (text name : Bytes) → Limited (create_reject_auth_message p text name)
  unfolding create_reject_auth_message
  rejected text name = record { at = λ s h. h }

  validator_accepted :
      (text name : Bytes) → Limited (create_validator_accept_auth_message p text name)
  unfolding create_validator_accept_auth_message
  validator_accepted text name = record { at = λ s h. h }

  pub validator_rejected :
      (text name : Bytes) → Limited (create_validator_reject_auth_message p text name)
  unfolding create_validator_reject_auth_message
  validator_rejected text name = record { at = λ s h. h }

  plain_rejected : (text : Bytes) → Limited (create_reject_message p text)
  unfolding create_reject_message
  plain_rejected text = record { at = λ s h. h }

  pub checked_at :
      (m : AuthenticatedMessage) (rest : Action (Controller p) Bytes)
      → Limited rest
      → Limited (checked p m rest)
  unfolding create_reject_message
  checked_at m rest h = record {
    at = λ s w.
        elim (Bool-cases (is_session_correct s.auth_map m.username m.session_cookies m.nonce)) [
          | inl fits ↦ rw fits (h.at s w)
          | inr not_ ↦ rw not_ w
        ];
  }

  pub validator_checked_at :
      (m : AuthenticatedMessage) (rest : Action (Controller p) Bytes)
      → Limited rest
      → Limited (validator_checked p m rest)
  unfolding create_reject_message
  validator_checked_at m rest h = record {
    at = λ s w.
        elim (Bool-cases
          (is_session_correct s.validator_map m.username m.session_cookies m.nonce)) [
            | inl fits ↦ rw fits (h.at s w)
            | inr not_ ↦ rw not_ w
          ];
  }

  -- A user's session is opened, and the user is greeted.
  opened :
      (inputs : Inputs) (ssl : ℕ) (name : Bytes)
      → Limited (
          modify (save_ssl p ssl name)
          >> (modify (authenticate_user p inputs name)
              >> create_accept_auth_message p (greeting name) name))
  unfolding save_ssl authenticate_user create_accept_auth_message
  opened inputs ssl name = record { at = λ s h. h }

  validator_opened :
      (inputs : Inputs) (ssl : ℕ) (name : Bytes)
      → Limited (
          modify (save_ssl p ssl name)
          >> (modify (authenticate_validator p inputs name)
              >> create_validator_accept_auth_message p (greeting name) name))
  unfolding save_ssl authenticate_validator create_validator_accept_auth_message
  validator_opened inputs ssl name = record { at = λ s h. h }

  module _ (R : IsReliable p.sql) where
    named : (name : Bytes) → Limited (on_events (Events.get_event_by_name p name))
    named name =
        Limited-events (Events.get_event_by_name p name)
          (λ s. same_tables p (p.tables s.conn) _ (get_event_by_name_tables p R.laws name s))

    pub sign_up_at :
        (inputs : Inputs) (m : SignUpMessage) (ssl : ℕ) → Limited (do_sign_up_action p inputs m ssl)
    unfolding do_sign_up_action
    sign_up_at inputs m ssl =
        Limited-bind _ _
          (Limited-users (call (Users.sign_up p m.username m.password))
            (λ c. same_tickets p (p.tables c) _ (sign_up-IsKept p R.laws m.username m.password c)))
          (λ b.
            Limited-if b _ _ (opened inputs ssl m.username)
              (plain_rejected (codes "Sign-up failed. Please try again.\n")))

    pub log_in_at :
        (inputs : Inputs) (m : LogInMessage) (ssl : ℕ) → Limited (do_log_in_action p inputs m ssl)
    unfolding do_log_in_action
    log_in_at inputs m ssl =
        Limited-bind _ _
          (Limited-users (call (Users.login_user p m.username m.password)) (λ c.
            same_tables p (p.tables c) _ (login_user_tables p R.laws m.username m.password c)))
          (λ b.
            Limited-if b _ _ (opened inputs ssl m.username)
              (plain_rejected (codes "Log-in failed. Please try again.\n")))

    pub log_in_validator_at :
        (inputs : Inputs) (m : LogInValidatorMessage) (ssl : ℕ)
        → Limited (do_log_in_validator_action p inputs m ssl)
    unfolding do_log_in_validator_action
    log_in_validator_at inputs m ssl =
        Limited-bind _ _
          (Limited-users (call (Users.login_validator p m.username m.password)) (λ c.
            same_tables p (p.tables c) _ (login_validator_tables p R.laws m.username m.password c)))
          (λ b.
            Limited-if b _ _ (validator_opened inputs ssl m.username)
              (plain_rejected (codes "Log-in failed. Please try again.\n")))

    pub list_at : (m : GetAvailableTicketsMessage) → Limited (list_tickets p m)
    list_at m = Limited-bind _ _ (named m.event_name) (λ event.
        Limited-bind _ _
          (Limited-tickets (Tickets.get_all_available_tickets_by_event_id p event.id)
            (λ s. same_tables p (p.tables s.conn) _ (get_all_available_tables p R.laws event.id s)))
          (λ tickets. accepted (listing p event.name tickets) m.username))

    buy_at :
        (now : Tm) (draw : ℕ → ℕ) (id event user : ℤ)
        → Limited (on_tickets (Tickets.buy_ticket p now draw id event user))
    buy_at now draw id event user = record {
      at = λ s h v.
          buy_ticket_limit p R now draw id event user
            (record { conn = s.conn; tickets_info_cache = s.tickets_info_cache }) v (h v);
    }

    pub purchase_at : (inputs : Inputs) (m : BuyTicketMessage) → Limited (purchase p inputs m)
    purchase_at inputs m = Limited-bind _ _ (named m.event_name) (λ event.
        Limited-bind _ _
          (Limited-users (Users.get_user_id p m.username)
            (λ c. same_tables p (p.tables c) _ (get_user_id_tables p R.laws m.username c)))
          (λ user.
            Limited-bind _ _ (buy_at inputs.now inputs.code_draw m.ticket_id event.id user)
              (λ ticket. accepted (Format.serialize p.floats ticket) m.username)))

    pub sell_at : (m : SellTicketMessage p.Price) → Limited (put_on_sale p m)
    sell_at m =
        Limited-bind _ _
          (Limited-tickets (Tickets.sell_ticket p m.serialized_ticket m.new_price) (λ s.
            same_tickets p (p.tables s.conn) _
              (sell_ticket-ticket p R.laws m.serialized_ticket m.new_price s)))
          (λ sold. accepted (codes "Ticket was sucessfully put on sale.\n") m.username)

    pub admit_at : (m : ValidateTicketMessage) → Limited (admit p m)
    admit_at m =
        Limited-bind _ _
          (Limited-tickets (Tickets.validate_ticket p m.val_code)
            (λ s. validate_ticket-IsKept p R m.val_code s))
          (λ r.
            Limited-if r.0 _ _ (validator_accepted _ m.username) (validator_rejected _ m.username))

    pub compare_at : (m : CheckIntegrityMessage) → Limited (compare_integrity p m)
    compare_at m =
        Limited-bind _ _
          (Limited-tickets (Tickets.check_integrity p m.val_code m.integrity_code) (λ s.
            same_tables p (p.tables s.conn) _
              (check_integrity_tables p R.laws m.val_code m.integrity_code s)))
          (λ r.
            Limited-if r.0 _ _ (validator_accepted r.1 m.username)
              (validator_rejected r.1 m.username))

    pub log_out_at : (m : LogOutMessage) → Limited (do_logout_action p m)
    unfolding do_logout_action create_accept_message create_reject_message logout_user
        logout_validator
    log_out_at m = record {
      at = λ s h.
          elim (Bool-cases (is_session_correct s.auth_map m.username m.session_cookies m.nonce)) [
            | inl user ↦ rw user h
            | inr other ↦
                rw other
                  (elim (Bool-cases
                    (is_session_correct s.validator_map m.username m.session_cookies m.nonce)) [
                      | inl validator ↦ rw validator h
                      | inr none_ ↦ rw none_ h
                    ])
          ];
    }

    pub get_event_at :
        (m : GetAvailableTicketsMessage) → Limited (do_get_available_tickets_action p m)
    unfolding do_get_available_tickets_action handle_get_available_tickets_error
        create_reject_auth_message
    get_event_at m =
        Limited-catch _
          (λ what. do
            message ← handle_get_available_tickets_error p
            create_reject_auth_message p message m.username)
          (checked_at m.base _ (list_at m)) (λ what. record { at = λ s h. h })
