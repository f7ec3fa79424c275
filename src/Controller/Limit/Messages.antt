-- ===== src/Controller/Limit/Messages.antt =====
-- Every action, and every message, keeps the limit.
use ticket_ist.Prelude.{ℕ, [], Bytes}
use ticket_ist.Prelude.Action.{pure, lift}
use ticket_ist.Platform.{Platform}
use ticket_ist.Database.Laws.{IsReliable}
use ticket_ist.Message.Action.{
  ActionType, sign_up, log_in, log_in_validator, ticket_sell, get_available_tickets, buy_ticket,
  accept, reject, accept_auth, reject_auth, validate_ticket, check_integrity, log_out, sell_ticket,
  unknown, unnamed,
}
use ticket_ist.Message.Accept
use ticket_ist.Message.Reject
use ticket_ist.Controller.State.{Inputs}
use ticket_ist.Controller.Replies.{create_reject_auth_message, create_validator_reject_auth_message}
use ticket_ist.Controller.Shop.{do_buy_ticket_action, do_sell_ticket_action}
use ticket_ist.Controller.Door.{do_validate_ticket_action, do_check_integrity_action}
use ticket_ist.Controller.Dispatch.{handle_action, message_handler}
use ticket_ist.Controller.Limit.{Limited, Limited-bind, Limited-catch, Limited-lift}
use ticket_ist.Controller.Limit.Handlers.{
  rejected, validator_rejected, checked_at, validator_checked_at, sign_up_at, log_in_at,
  log_in_validator_at, purchase_at, sell_at, admit_at, compare_at, log_out_at, get_event_at,
}

module _ (p : Platform) where
  module _ (R : IsReliable p.sql) where
    -- On a reliable server no message, of whatever action and whatever text, takes anyone above six
    -- tickets who is not above, whether it is answered or an exception ends it.
    pub handle_action-Limited :
        (inputs : Inputs) (a : ActionType) (ssl : ℕ) (received : Bytes)
        → Limited (handle_action p inputs a ssl received)
    unfolding handle_action do_buy_ticket_action do_sell_ticket_action do_validate_ticket_action
        do_check_integrity_action
    handle_action-Limited inputs get_available_tickets ssl received =
        Limited-bind _ _ (Limited-lift _) (get_event_at p R)
    handle_action-Limited inputs buy_ticket ssl received = Limited-bind _ _ (Limited-lift _) (λ m.
        Limited-catch _ (λ what. create_reject_auth_message p what m.username)
          (checked_at p m.base _ (purchase_at p R inputs m)) (λ what. rejected p what m.username))
    handle_action-Limited inputs log_in_validator ssl received =
        Limited-bind _ _ (Limited-lift _) (λ m. log_in_validator_at p R inputs m ssl)
    handle_action-Limited inputs validate_ticket ssl received =
        Limited-bind _ _ (Limited-lift _) (λ m.
          Limited-catch _ (λ what. create_validator_reject_auth_message p what m.username)
            (validator_checked_at p m.base _ (admit_at p R m))
            (λ what. validator_rejected p what m.username))
    handle_action-Limited inputs check_integrity ssl received =
        Limited-bind _ _ (Limited-lift _) (λ m.
          Limited-catch _ (λ what. create_validator_reject_auth_message p what m.username)
            (validator_checked_at p m.base _ (compare_at p R m))
            (λ what. validator_rejected p what m.username))
    handle_action-Limited inputs log_out ssl received =
        Limited-bind _ _ (Limited-lift _) (log_out_at p R)
    handle_action-Limited inputs sell_ticket ssl received = Limited-bind _ _ (Limited-lift _) (λ m.
        Limited-catch _ (λ what. create_reject_auth_message p what m.username)
          (checked_at p m.base _ (sell_at p R m)) (λ what. rejected p what m.username))
    handle_action-Limited inputs accept ssl received =
        Limited-bind (lift (Accept.deserialize received)) (λ m. pure []) (Limited-lift _)
          (λ m. record { at = λ s h. h })
    handle_action-Limited inputs reject ssl received =
        Limited-bind (lift (Reject.deserialize received)) (λ m. pure []) (Limited-lift _)
          (λ m. record { at = λ s h. h })
    handle_action-Limited inputs sign_up ssl received =
        Limited-bind _ _ (Limited-lift _) (λ m. sign_up_at p R inputs m ssl)
    handle_action-Limited inputs log_in ssl received =
        Limited-bind _ _ (Limited-lift _) (λ m. log_in_at p R inputs m ssl)
    handle_action-Limited inputs ticket_sell ssl received = record { at = λ s h. h }
    handle_action-Limited inputs accept_auth ssl received = record { at = λ s h. h }
    handle_action-Limited inputs reject_auth ssl received = record { at = λ s h. h }
    handle_action-Limited inputs unknown ssl received = record { at = λ s h. h }
    handle_action-Limited inputs (unnamed n) ssl received = record { at = λ s h. h }

    pub message_handler-Limited :
        (inputs : Inputs) (ssl : ℕ) (received : Bytes)
        → Limited (message_handler p inputs ssl received)
    unfolding message_handler
    message_handler-Limited inputs ssl received =
        Limited-bind _ _ (Limited-lift _) (λ a. handle_action-Limited inputs a ssl received)
