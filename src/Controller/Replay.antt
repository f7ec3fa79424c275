-- ===== src/Controller/Replay.antt =====
-- No handler acts on an authenticated request twice: the reply to it, whatever it says, moves the
-- nonce on, so the same request is rejected from then on.
use ticket_ist.Prelude.{◌≡◌, refl, ap, true, false, Bytes, Result, ok, throw}
use ticket_ist.Prelude.Int.{ℤ}
use ticket_ist.Prelude.Map.{Map}
use ticket_ist.Platform.{Platform}
use ticket_ist.Message.BuyTicket.{BuyTicketMessage}
use ticket_ist.Message.ValidateTicket.{ValidateTicketMessage}
use ticket_ist.Controller.State.{Controller, Inputs, Session, catch_result}
use ticket_ist.Controller.Sessions.{is_session_correct}
use ticket_ist.Controller.Nonces.{next_nonce-is_session_correct}
use ticket_ist.Controller.Replies.{create_reject_auth_message, create_validator_reject_auth_message}
use ticket_ist.Controller.Settles.{
  RepliedTo, Replying, Settling-reply, Settling-bind, Settling-if, Replying-catch,
}
use ticket_ist.Controller.Shop.{purchase, do_buy_ticket_action}
use ticket_ist.Controller.Door.{admit, do_validate_ticket_action}
use ticket_ist.Controller.Steps.{
  users, validators, rejection, checked_rejected, validator_checked_rejected,
  get_event_by_name-Safe, get_user_id-Safe, buy_ticket-Safe, validate_ticket-Safe, checked-Settling,
  validator_checked-Settling, create_accept_auth_message-Replying,
  create_reject_auth_message-Replying, create_validator_accept_auth_message-Replying,
  create_validator_reject_auth_message-Replying,
}

module _ (p : Platform) (inputs : Inputs) (m : BuyTicketMessage) (sessions : Map Session) where
  pub do_buy_ticket_action-Replying :
      is_session_correct sessions m.username m.session_cookies m.nonce ≡ true
      → Replying users m.username sessions (do_buy_ticket_action p inputs m)
  unfolding do_buy_ticket_action
  do_buy_ticket_action-Replying h =
      Replying-catch users m.username sessions _ _
        (checked-Settling p m.username sessions m.base _ h (
          Settling-bind users m.username sessions _ _
            (get_event_by_name-Safe p m.username sessions m.event_name)
            λ event.
              Settling-bind users m.username sessions _ _
                (get_user_id-Safe p m.username sessions m.username)
                λ user.
                  Settling-bind users m.username sessions _ _
                    (buy_ticket-Safe p m.username sessions inputs.now inputs.code_draw m.ticket_id
                      event.id user)
                    λ ticket.
                      Settling-reply users m.username sessions _
                        (create_accept_auth_message-Replying p m.username sessions _)))
        (create_reject_auth_message-Replying p m.username sessions)

module _ (p : Platform) (m : ValidateTicketMessage) (sessions : Map Session) where
  pub do_validate_ticket_action-Replying :
      is_session_correct sessions m.username m.session_cookies m.nonce ≡ true
      → Replying validators m.username sessions (do_validate_ticket_action p m)
  unfolding do_validate_ticket_action
  do_validate_ticket_action-Replying h =
      Replying-catch validators m.username sessions _ _
        (validator_checked-Settling p m.username sessions m.base _ h (
          Settling-bind validators m.username sessions _ _
            (validate_ticket-Safe p m.username sessions m.val_code)
            λ result.
              Settling-if validators m.username sessions result.0 _ _
                (Settling-reply validators m.username sessions _
                  (create_validator_accept_auth_message-Replying p m.username sessions _))
                (Settling-reply validators m.username sessions _
                  (create_validator_reject_auth_message-Replying p m.username sessions _))))
        (create_validator_reject_auth_message-Replying p m.username sessions)

-- What a handler leaves fails the check for the request that it replied to.
replied-is_session_correct :
    {p : Platform} (sel : Controller p → Map Session) (username cookie : Bytes) (nonce : ℤ)
    (m : Map Session) (x : Result Bytes × Controller p)
    → is_session_correct m username cookie nonce ≡ true
    → RepliedTo sel username m x
    → is_session_correct (sel x.1) username cookie nonce ≡ false
replied-is_session_correct sel username cookie nonce m (ok reply, s) h r =
    rw r ((next_nonce-is_session_correct m username cookie nonce h).0)
replied-is_session_correct sel username cookie nonce m (throw e, s) h r = elim r [ ]

module _ (p : Platform) where
  buy_rejected :
      (inputs : Inputs) (m : BuyTicketMessage) (s : Controller p)
      → is_session_correct s.auth_map m.username m.session_cookies m.nonce ≡ false
      → do_buy_ticket_action p inputs m s ≡ (ok rejection, s)
  unfolding do_buy_ticket_action
  buy_rejected inputs m s h =
      ap (λ x. catch_result x (λ what. create_reject_auth_message p what m.username))
        (checked_rejected p m.base (purchase p inputs m) s h)

  validate_rejected :
      (m : ValidateTicketMessage) (s : Controller p)
      → is_session_correct s.validator_map m.username m.session_cookies m.nonce ≡ false
      → do_validate_ticket_action p m s ≡ (ok rejection, s)
  unfolding do_validate_ticket_action
  validate_rejected m s h =
      ap (λ x. catch_result x (λ what. create_validator_reject_auth_message p what m.username))
        (validator_checked_rejected p m.base (admit p m) s h)

  -- A purchase that passed the check is rejected when it is sent again, and changes nothing then;
  -- so it is whether the purchase succeeded or not, and whatever the database does.
  pub do_buy_ticket_action_once :
      (inputs inputs' : Inputs) (m : BuyTicketMessage) (s : Controller p)
      → is_session_correct s.auth_map m.username m.session_cookies m.nonce ≡ true
      → do_buy_ticket_action p inputs' m (do_buy_ticket_action p inputs m s).1
        ≡ (ok rejection, (do_buy_ticket_action p inputs m s).1)
  do_buy_ticket_action_once inputs inputs' m s h =
      buy_rejected inputs' m (do_buy_ticket_action p inputs m s).1 (
        replied-is_session_correct users m.username m.session_cookies m.nonce s.auth_map
          (do_buy_ticket_action p inputs m s) h
          ((do_buy_ticket_action-Replying p inputs m s.auth_map h).at s refl))

  -- A validation that passed the check is rejected when it is sent again, and changes nothing then.
  pub do_validate_ticket_action_once :
      (m : ValidateTicketMessage) (s : Controller p)
      → is_session_correct s.validator_map m.username m.session_cookies m.nonce ≡ true
      → do_validate_ticket_action p m (do_validate_ticket_action p m s).1
        ≡ (ok rejection, (do_validate_ticket_action p m s).1)
  do_validate_ticket_action_once m s h = validate_rejected m (do_validate_ticket_action p m s).1 (
      replied-is_session_correct validators m.username m.session_cookies m.nonce s.validator_map
        (do_validate_ticket_action p m s) h
        ((do_validate_ticket_action-Replying p m s.validator_map h).at s refl))
