-- ===== src/Client/Menu/Files.antt =====
-- The menu and the rounds of `main` write over no file.
use ticket_ist.Prelude.{ℕ, Bool, true, false, Bytes}
use ticket_ist.Prelude.Int.{ℤ}
use ticket_ist.Platform.{Platform}
use ticket_ist.Message.Action.{ActionType}
use ticket_ist.Message.Authenticated.{AuthenticatedMessage}
use ticket_ist.Client.Desk.{Machine, Dialog, ◌>>◌, say, pure, clear_flags}
use ticket_ist.Client.Desk.Keeps.{Keeps, keeps_rules, Keeps-then, Keeps-say, Keeps-pure}
use ticket_ist.Client.Desk.Files.{IsKept, IsKept-Allows}
use ticket_ist.Client.Ask.Keeps.{ask_for_event_name-Keeps, ask_for_ticket_id-Keeps}
use ticket_ist.Client.Wallet.Keeps.{
  get_owned_tickets-Keeps, get_and_decrypt_ticket-Keeps, ask_file_name-Keeps,
  get_ticket_val_code-Keeps, get_integrity_code-Keeps, get_ticket-Keeps,
}
use ticket_ist.Client.Wallet.Files.{save_ticket-Keeps}
use ticket_ist.Client.Entry.Files.{exchange-Keeps, authenticate-Keeps, authentication_bypass-Keeps}
use ticket_ist.Client.Menu.{
  Choice, request, no_request, no_choice, count_nonce, logout, ask_price, price_round,
  ask_for_price, signed_request, ask_available, ask_purchase, ask_sale, local, choose, take_in,
  settle, refuse, menu_round, client_menu, main_round, client_main,
}

count_nonce-Keeps : Keeps IsKept count_nonce
count_nonce-Keeps = record { at = λ d path content h. h }

clear_flags-Keeps : Keeps IsKept clear_flags
clear_flags-Keeps = record { at = λ d path content h. h }

logout-Keeps : {A : Type 0} → Keeps IsKept (logout {A = A})
unfolding logout
logout-Keeps = search (keeps_rules, IsKept-Allows, exchange-Keeps, count_nonce-Keeps) depth 16

module _ (p : Platform) (machine : Machine p.Price) (rounds : ℕ) where
  ask_price-Keeps : (old : p.Price) → Keeps IsKept (ask_price p machine rounds old)
  ask_price-Keeps old = record { at = λ d path content h. h }

  price_round-Keeps : (old : p.Price) → Keeps IsKept (price_round p machine rounds old)
  unfolding price_round
  price_round-Keeps old = search (keeps_rules, IsKept-Allows, ask_price-Keeps) depth 14

  ask_for_price-Keeps : Keeps IsKept (ask_for_price p machine rounds)
  unfolding ask_for_price
  ask_for_price-Keeps = search (keeps_rules, IsKept-Allows, price_round-Keeps)

  signed_request-Keeps :
      (action : ActionType) (text : AuthenticatedMessage → Bytes)
      → Keeps IsKept (signed_request p machine rounds action text)
  signed_request-Keeps action text = record { at = λ d path content h. h }

  ask_available-Keeps : Keeps IsKept (ask_available p machine rounds)
  unfolding ask_available
  ask_available-Keeps =
      search (keeps_rules, IsKept-Allows, ask_for_event_name-Keeps, signed_request-Keeps) depth 14

  ask_purchase-Keeps : Keeps IsKept (ask_purchase p machine rounds)
  unfolding ask_purchase
  ask_purchase-Keeps =
      search
        (
          keeps_rules, IsKept-Allows, ask_for_event_name-Keeps, ask_for_ticket_id-Keeps,
          signed_request-Keeps,
        )
        depth 14

  ask_sale-Keeps : Keeps IsKept (ask_sale p machine rounds)
  unfolding ask_sale
  ask_sale-Keeps =
      search
        (
          keeps_rules, IsKept-Allows, ask_file_name-Keeps, get_and_decrypt_ticket-Keeps,
          ask_for_price-Keeps, signed_request-Keeps,
        )
        depth 14

  local-Keeps :
      (title : Bytes) (m : Dialog (Unit {0}))
      → Keeps IsKept m
      → Keeps IsKept (local p machine rounds title m)
  local-Keeps title m km = record {
    at =
        (Keeps-then IsKept-Allows (say title >> m) (pure no_request)
          (Keeps-then IsKept-Allows (say title) m (Keeps-say IsKept-Allows title) km)
          (Keeps-pure IsKept-Allows no_request)).at;
  }

  choose-Keeps : (action : ℤ) → Keeps IsKept (choose p machine rounds action)
  unfolding choose
  choose-Keeps action =
      search
        (
          keeps_rules, IsKept-Allows, ask_available-Keeps, ask_purchase-Keeps, ask_sale-Keeps,
          local-Keeps, get_owned_tickets-Keeps, get_ticket-Keeps, get_ticket_val_code-Keeps,
          get_integrity_code-Keeps, logout-Keeps,
        )
        depth 16

  take_in-Keeps :
      (action : ActionType) (text : Bytes) → Keeps IsKept (take_in p machine rounds action text)
  unfolding take_in
  take_in-Keeps action text =
      search (keeps_rules, IsKept-Allows, exchange-Keeps, save_ticket-Keeps) depth 16

  settle-Keeps : (choice : Choice) → Keeps IsKept (settle p machine rounds choice)
  unfolding settle
  settle-Keeps no_choice = search (keeps_rules, IsKept-Allows)
  settle-Keeps no_request = search (keeps_rules, IsKept-Allows)
  settle-Keeps (request action text) = search (keeps_rules, IsKept-Allows, take_in-Keeps) depth 14

  refuse-Keeps : (ended : Bool) → Keeps IsKept (refuse p machine rounds ended)
  unfolding refuse
  refuse-Keeps true = search (keeps_rules, IsKept-Allows, clear_flags-Keeps, logout-Keeps) depth 14
  refuse-Keeps false = search (keeps_rules, IsKept-Allows) depth 14

  menu_round-Keeps : (u : Unit {0}) → Keeps IsKept (menu_round p machine rounds u)
  unfolding menu_round
  menu_round-Keeps u =
      search (keeps_rules, IsKept-Allows, choose-Keeps, settle-Keeps, refuse-Keeps) depth 14

  client_menu-Keeps : Keeps IsKept (client_menu p machine rounds)
  unfolding client_menu
  client_menu-Keeps = search (keeps_rules, IsKept-Allows, menu_round-Keeps)

  main_round-Keeps : (bypass : Bool) → Keeps IsKept (main_round p machine rounds bypass)
  unfolding main_round
  main_round-Keeps bypass =
      search
        (
          keeps_rules, IsKept-Allows, client_menu-Keeps, authenticate-Keeps,
          authentication_bypass-Keeps,
        )
        depth 14

  pub client_main-Keeps : (bypass : Bool) → Keeps IsKept (client_main p machine rounds bypass)
  unfolding client_main
  client_main-Keeps bypass = search (keeps_rules, IsKept-Allows, main_round-Keeps)
