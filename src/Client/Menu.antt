-- ===== src/Client/Menu.antt =====
-- The menu, Client.cpp: `askForPrice`, `clientMenu`, `logout` and the loop of `main`. The signal
-- handler, which logs out at any moment, is left out.
pub mod Files
pub mod Mistyped
pub mod Ends
use ticket_ist.Prelude.{
  ℕ, ◌+◌, Bool, true, false, Option, none, some, ◌++◌, Bytes, codes, is_empty, if◌then◌else◌,
}
use ticket_ist.Prelude.Int.{ℤ, pos, ◌==ℤ◌}
use ticket_ist.Text.Stream.{Stream}
use ticket_ist.Text.Input.{sentry, stopped_at}
use ticket_ist.Platform.{Platform}
use ticket_ist.Message.Action.{
  ActionType, get_available_tickets, buy_ticket, accept, accept_auth, sell_ticket,
}
use ticket_ist.Message.Authenticated.{AuthenticatedMessage}
use ticket_ist.Message.SignUp
use ticket_ist.Message.LogIn
use ticket_ist.Message.LogOut
use ticket_ist.Message.GetAvailableTickets
use ticket_ist.Message.BuyTicket
use ticket_ist.Message.SellTicket
use ticket_ist.Client.{Client, client_action_type, next_request, get_and_print_server_response}
use ticket_ist.Client.Desk.{
  Machine, Dialog, Round, again, leave, done, pure, lift, exit, look, what, say, loop, catch,
  ask_int, discard_line, clear_flags, exchange, ◌>>=◌, ◌>>◌,
}
use ticket_ist.Client.Ask.{ask_for_event_name, ask_for_ticket_id}
use ticket_ist.Client.Entry.{authenticate, authentication_bypass}
use ticket_ist.Client.Folder.{get_owned_tickets}
use ticket_ist.Client.Wallet.{
  save_ticket, get_and_decrypt_ticket, ask_file_name, get_ticket_val_code, get_integrity_code,
  get_ticket,
}

-- What a choice of the menu comes to: a request of this action, nothing to send, or no choice.
pub data Choice : Type 0 where
  request : ActionType → Bytes → Choice
  no_request : Choice
  no_choice : Choice

abbrev pub is_accept : ActionType → Bool
is_accept accept = true
is_accept _ = false

-- A ticket was bought.
abbrev pub is_bought : ActionType → ActionType → Bool
is_bought buy_ticket accept_auth = true
is_bought _ _ = false

-- The globals as the base of a message.
abbrev pub signed : Client → AuthenticatedMessage
signed c = record { username = c.username; session_cookies = c.cookie; nonce = c.nonce }

-- `++nonce`
abbrev pub count_nonce : Dialog (Unit {0})
count_nonce d = (done tt, record d { client = next_request d.client })

unfoldable pub logout : {A : Type 0} → Dialog A
unfolding next_request client_action_type LogOut.serialize ◌>>=◌ ◌>>◌
logout = do
  count_nonce
  base ← look (λ d. signed d.client)
  reply ← exchange (LogOut.serialize base)
  action ← lift (client_action_type reply)
  if is_accept action then say (codes "Logged out successfully.") else pure tt
  exit

module _ {Price : Type 0} (machine : Machine Price) where
  unfoldable pub converted : Price → Stream → Option Price × Bytes → Price × Stream
  converted zero_price ss (none, rest) = (zero_price, stopped_at true rest)
  converted zero_price ss (some x, rest) = (x, stopped_at false rest)

  -- `std::cin >> price`
  unfoldable pub read_price : Price → Price → Stream → Price × Stream
  unfolding sentry is_empty converted
  read_price zero_price old ss =
      let (good, ss') = sentry ss in
      if good then converted zero_price ss' (machine.read_price ss'.unread) else (old, ss')

module _ (p : Platform) (machine : Machine p.Price) (rounds : ℕ) where
  abbrev ask_price : p.Price → Dialog p.Price
  ask_price old d =
      let (x, input) = read_price machine p.zero_price old d.input in
      (done x, record d { input = input })

  unfoldable pub price_round : p.Price → Dialog (Round p.Price p.Price)
  unfolding ◌>>=◌ ◌>>◌
  price_round old = do
    price ← ask_price old
    let insist = do say (codes "Price cannot be negative. Please enter again."); pure (again price)
    if p.less price p.zero_price then insist else pure (leave price)

  unfoldable pub ask_for_price : Dialog p.Price
  unfolding price_round loop
  ask_for_price = loop rounds price_round machine.any_price

  -- A request counts the nonce up before it is written.
  abbrev signed_request : ActionType → (AuthenticatedMessage → Bytes) → Dialog Choice
  signed_request action text d = (
    done (request action (text (signed (next_request d.client)))),
    record d { client = next_request d.client },
  )

  unfoldable pub ask_available : Dialog Choice
  unfolding ask_for_event_name next_request GetAvailableTickets.serialize ◌>>=◌ ◌>>◌
  ask_available = do
    say (codes "GET AVAILABLE TICKETS")
    event_name ← ask_for_event_name p machine rounds
    signed_request get_available_tickets
        (λ base. GetAvailableTickets.serialize (record { base = base; event_name = event_name }))

  unfoldable pub ask_purchase : Dialog Choice
  unfolding ask_for_ticket_id ask_for_event_name next_request BuyTicket.serialize ◌>>=◌ ◌>>◌
  ask_purchase = do
    say (codes "BUY TICKET")
    ticket_id ← ask_for_ticket_id p machine rounds
    event_name ← ask_for_event_name p machine rounds
    signed_request buy_ticket (λ base.
        BuyTicket.serialize
          (record { base = base; ticket_id = ticket_id; event_name = event_name }))

  unfoldable pub ask_sale : Dialog Choice
  unfolding ask_file_name get_and_decrypt_ticket ask_for_price next_request SellTicket.serialize
      ◌>>=◌
  ask_sale = do
    path ← ask_file_name p machine rounds
    ticket_data ← get_and_decrypt_ticket p machine rounds path
    new_price ← ask_for_price
    signed_request sell_ticket (λ base.
        SellTicket.serialize p.floats
          (record { base = base; serialized_ticket = ticket_data; new_price = new_price }))

  abbrev local : Bytes → Dialog (Unit {0}) → Dialog Choice
  local title m d = (say title >> m >> pure no_request) d

  unfoldable pub choose : ℤ → Dialog Choice
  unfolding ask_available ask_purchase ask_sale get_owned_tickets get_ticket get_ticket_val_code
      get_integrity_code logout ◌>>◌
  choose action =
      if action ==ℤ pos 1
      then ask_available
      else if action ==ℤ pos 2
      then ask_purchase
      else if action ==ℤ pos 3
      then local (codes "GET ALL OWNED TICKETS") get_owned_tickets
      else if action ==ℤ pos 4
      then local (codes "SEE TICKET") (get_ticket p machine rounds)
      else if action ==ℤ pos 5
      then local (codes "GET TICKET VAL CODE") (get_ticket_val_code p machine rounds)
      else if action ==ℤ pos 6
      then local (codes "GET TICKET INTEGRITY CODE") (get_integrity_code p machine rounds)
      else if action ==ℤ pos 7
      then ask_sale
      else if action ==ℤ pos 8
      then logout
      else (say (codes "Invalid action. Please choose 1, 2, or 3.") >> pure no_choice)

  -- A reply to a request: a bought ticket is saved, any other reply is checked and printed.
  unfoldable pub take_in : ActionType → Bytes → Dialog (Unit {0})
  unfolding client_action_type save_ticket get_and_print_server_response ◌>>=◌ ◌>>◌
  take_in sent_action text = do
    reply ← exchange text
    action ← lift (client_action_type reply)
    let print = do
      (printed, line) ← look (λ d. get_and_print_server_response reply d.client) >>= lift
      say line
    if is_bought sent_action action then save_ticket p machine rounds reply else print

  -- An exception is printed and ends the menu.
  unfoldable pub settle : Choice → Dialog (Round (Unit {0}) (Unit {0}))
  unfolding take_in catch ◌>>◌
  settle no_choice = pure (again tt)
  settle no_request = pure (again tt)
  settle (request action text) =
      catch (take_in action text >> pure (again tt))
        (λ e. say (codes "Error: " ++ what e) >> pure (leave tt))

  -- What is done where the number of a choice cannot be read: the end of the input logs out.
  unfoldable pub refuse : Bool → Dialog (Round (Unit {0}) (Unit {0}))
  unfolding logout ◌>>◌
  refuse true = clear_flags >> logout
  refuse false =
      say (codes "Invalid input. Please select a number!") >> discard_line >> pure (again tt)

  unfoldable pub menu_round : Unit {0} → Dialog (Round (Unit {0}) (Unit {0}))
  unfolding choose settle refuse ◌>>=◌ ◌>>◌
  menu_round _ = do
    action ← ask_int machine.any_int
    (bad, ended) ← look (λ d. (d.input.fail, d.input.eof))
    let act = choose action >>= settle
    if bad then refuse ended else act

  unfoldable pub client_menu : Dialog (Unit {0})
  unfolding loop menu_round
  client_menu = loop rounds menu_round tt

  -- One round of `main`, which is left with whether the program failed.
  unfoldable pub main_round : Bool → Dialog (Round Bool Bool)
  unfolding authenticate authentication_bypass client_menu ◌>>=◌ ◌>>◌
  main_round use_bypass = do
    entered ←
        if use_bypass then authentication_bypass p machine rounds else authenticate p machine rounds
    let serve = do client_menu; pure (again use_bypass)
    let fail = do say (codes "Something went wrong!"); pure (leave true)
    if entered then serve else fail

  unfoldable pub client_main : Bool → Dialog Bool
  unfolding loop main_round
  client_main use_bypass = loop rounds main_round use_bypass
