-- ===== src/Service/Tickets/Throws.antt =====
-- The exceptions that the services throw.
use ticket_ist.Prelude.{
  ℕ, ◌≡◌, Bytes, arith, invalid_argument, out_of_range, runtime_error, Result, ok, throw,
}
use ticket_ist.Prelude.Int.{ℤ}
use ticket_ist.Platform.{Platform}
use ticket_ist.Ticket.{Tm}
use ticket_ist.Service.Users
use ticket_ist.Service.Events
use ticket_ist.Service.Events.{EventService}
use ticket_ist.Service.Tickets.{
  TicketService, retire_old_ticket, buy_ticket, validate_ticket,
  get_all_available_tickets_by_event_id,
}

-- The call returns, or throws a `std::invalid_argument`.
abbrev pub IsInvalidOnly : {A : Type 0} → Result A → Type 0
IsInvalidOnly (ok a) = Unit
IsInvalidOnly (throw (invalid_argument what)) = Unit
IsInvalidOnly (throw (out_of_range what)) = ⊥
IsInvalidOnly (throw (runtime_error what)) = ⊥

module _ (p : Platform) where
  pub get_event_by_name_throws :
      (name : Bytes) (s : EventService p) → IsInvalidOnly (Events.get_event_by_name p name s).0
  unfolding Events.get_event_by_name
  get_event_by_name_throws name s = ground arith

  pub get_user_id_throws :
      (name : Bytes) (c : p.Conn) → IsInvalidOnly (Users.get_user_id p name c).0
  unfolding Users.get_user_id
  get_user_id_throws name c = ground arith

  retire_old_ticket_returns : (i : ℤ) (s : TicketService p) → (retire_old_ticket p i s).0 ≡ ok tt
  unfolding retire_old_ticket
  retire_old_ticket_returns i s = ground arith

  pub buy_ticket_throws :
      (now : Tm) (draw : ℕ → ℕ) (id event user : ℤ) (s : TicketService p)
      → IsInvalidOnly (buy_ticket p now draw id event user s).0
  unfolding buy_ticket
  buy_ticket_throws now draw id event user s = grind (arith, retire_old_ticket_returns)

  pub validate_ticket_throws :
      (code : Bytes) (s : TicketService p) → IsInvalidOnly (validate_ticket p code s).0
  unfolding validate_ticket
  validate_ticket_throws code s = ground arith

  pub get_all_available_tickets_throws :
      (e : ℤ) (s : TicketService p) → IsInvalidOnly (get_all_available_tickets_by_event_id p e s).0
  unfolding get_all_available_tickets_by_event_id
  get_all_available_tickets_throws e s = tt
