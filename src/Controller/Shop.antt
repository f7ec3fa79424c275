-- ===== src/Controller/Shop.antt =====
-- The handlers of `class Controller` for the listing, the purchase and the resale of tickets.
use ticket_ist.Prelude.{not, List, [], ◌∷◌, ◌++◌, Bytes, codes, if◌then◌else◌, ok}
use ticket_ist.Prelude.Map.{Map}
use ticket_ist.Prelude.Action.{Action, ◌>>=◌}
use ticket_ist.Platform.{Platform}
use ticket_ist.Ticket.{TicketInfo}
use ticket_ist.Ticket.Format
use ticket_ist.Message.Authenticated.{AuthenticatedMessage}
use ticket_ist.Message.GetAvailableTickets.{GetAvailableTicketsMessage}
use ticket_ist.Message.BuyTicket.{BuyTicketMessage}
use ticket_ist.Message.SellTicket.{SellTicketMessage}
use ticket_ist.Repository.Events.{Event}
use ticket_ist.Service.Users
use ticket_ist.Service.Events
use ticket_ist.Service.Tickets
use ticket_ist.Controller.State.{Controller, Inputs, on_users, on_events, on_tickets, catch_invalid}
use ticket_ist.Controller.Sessions.{is_session_correct}
use ticket_ist.Controller.Replies.{
  create_reject_message, create_accept_auth_message, create_reject_auth_message,
}

-- `message.pop_back()`
pop_back : Bytes → Bytes
pop_back [] = []
pop_back (c ∷ []) = []
pop_back (c ∷ d ∷ s) = c ∷ pop_back (d ∷ s)

-- The keys of the cache in their order, each with a comma and a space.
append_names : Map Event → Bytes → Bytes
append_names [] message = message
append_names ((name, event) ∷ m) message = append_names m (message ++ name ++ codes ", ")

unfoldable pub event_names : Map Event → Bytes
unfolding pop_back append_names
event_names [] = codes "Event not found. Available events are: \n"
event_names (e ∷ m) =
    pop_back (pop_back (append_names (e ∷ m) (codes "Event not found. Available events are: ")))
    ++ codes "\n"

abbrev rule_line : Bytes
rule_line = codes "-----------------------------------------------------------\n"

module _ (p : Platform) where
  append_tickets : List (TicketInfo p.Price) → Bytes → Bytes
  append_tickets [] message = message
  append_tickets (i ∷ is) message =
      append_tickets is (message ++ Format.to_string p.floats i ++ codes "\n")

  unfoldable pub listing : Bytes → List (TicketInfo p.Price) → Bytes
  unfolding append_tickets
  listing event [] = codes "No available tickets for " ++ event ++ codes ".\n"
  listing event (i ∷ is) =
      append_tickets (i ∷ is) (
        codes "Available tickets for "
        ++ event
        ++ codes ":\n"
        ++ codes "TicketID   | EventID    | SellerID   | Price       | Seat  \n"
        ++ rule_line)
      ++ rule_line

  -- A request that passes the check of its session; one that does not is rejected with the text
  -- that the check, which has it by value, did not fill in.
  abbrev pub checked :
      AuthenticatedMessage → Action (Controller p) Bytes → Action (Controller p) Bytes
  checked m rest s =
      if not (is_session_correct s.auth_map m.username m.session_cookies m.nonce)
      then create_reject_message p [] s
      else rest s

  unfoldable pub handle_get_available_tickets_error : Action (Controller p) Bytes
  unfolding event_names
  handle_get_available_tickets_error s = (ok (event_names s.event_cache), s)

  -- The body of the `try` behind the check, of each handler.
  abbrev pub list_tickets : GetAvailableTicketsMessage → Action (Controller p) Bytes
  list_tickets m = do
    event ← on_events (Events.get_event_by_name p m.event_name)
    tickets ← on_tickets (Tickets.get_all_available_tickets_by_event_id p event.id)
    create_accept_auth_message p (listing event.name tickets) m.username

  abbrev pub purchase : Inputs → BuyTicketMessage → Action (Controller p) Bytes
  purchase inputs m = do
    event ← on_events (Events.get_event_by_name p m.event_name)
    user_id ← on_users {p = p} (Users.get_user_id p m.username)
    ticket ←
        on_tickets (Tickets.buy_ticket p inputs.now inputs.code_draw m.ticket_id event.id user_id)
    create_accept_auth_message p (Format.serialize p.floats ticket) m.username

  abbrev pub put_on_sale : SellTicketMessage p.Price → Action (Controller p) Bytes
  put_on_sale m = do
    sold ← on_tickets (Tickets.sell_ticket p m.serialized_ticket m.new_price)
    create_accept_auth_message p (codes "Ticket was sucessfully put on sale.\n") m.username

  unfoldable pub do_get_available_tickets_action :
      GetAvailableTicketsMessage → Action (Controller p) Bytes
  do_get_available_tickets_action m = catch_invalid (checked m.base (list_tickets m)) (λ what. do
    message ← handle_get_available_tickets_error
    create_reject_auth_message p message m.username)

  unfoldable pub do_buy_ticket_action : Inputs → BuyTicketMessage → Action (Controller p) Bytes
  do_buy_ticket_action inputs m =
      catch_invalid (checked m.base (purchase inputs m))
        (λ what. create_reject_auth_message p what m.username)

  unfoldable pub do_sell_ticket_action : SellTicketMessage p.Price → Action (Controller p) Bytes
  do_sell_ticket_action m =
      catch_invalid (checked m.base (put_on_sale m))
        (λ what. create_reject_auth_message p what m.username)
