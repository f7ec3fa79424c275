-- ===== src/Client/Wallet/Keeps.antt =====
-- Client/Wallet.antt: reading the tickets changes the terminal only.
use ticket_ist.Prelude.{ℕ, Bytes, List, [], ◌∷◌, Option, none, some}
use ticket_ist.Platform.{Platform}
use ticket_ist.Client.Desk.{Machine, Desk, ◌>>◌}
use ticket_ist.Client.Desk.Keeps.{Allows, Keeps, keeps_rules, Keeps-pure, Keeps-then, Keeps-say}
use ticket_ist.Client.Ask.Keeps.{generate_kdf_key_to_decrypt_ticket-Keeps}
use ticket_ist.Client.Folder.{say_all, get_owned_tickets}
use ticket_ist.Client.Wallet.{
  file_name_round, encrypt_twice, content, get_and_decrypt_ticket, ask_file_round, ask_file_name,
  get_ticket_val_code, show_codes, get_integrity_code, get_ticket,
}

module _ {R : Desk → Desk → Type 0} (allows : Allows R) where
  say_all-Keeps : (lines : List Bytes) → Keeps R (say_all lines)
  unfolding say_all
  say_all-Keeps [] = Keeps-pure allows tt
  say_all-Keeps (line ∷ lines) = Keeps-then allows _ _ (Keeps-say allows line) (say_all-Keeps lines)

  pub get_owned_tickets-Keeps : Keeps R get_owned_tickets
  unfolding get_owned_tickets
  get_owned_tickets-Keeps = search (keeps_rules, allows, say_all-Keeps) depth 14

  module _ (p : Platform) (machine : Machine p.Price) (rounds : ℕ) where
    content-Keeps :
        (path : Bytes) (text : Option Bytes) → Keeps R (content p machine rounds path text)
    unfolding ◌>>◌
    content-Keeps path none = record { at = λ d. allows.writes d _ }
    content-Keeps path (some text) = record { at = λ d. allows.same d }

    pub file_name_round-Keeps : (old : Bytes) → Keeps R (file_name_round p machine rounds old)
    unfolding file_name_round
    file_name_round-Keeps old = search (keeps_rules, allows) depth 14

    pub encrypt_twice-Keeps :
        (text sym_key kdf_key : Bytes)
        → Keeps R (encrypt_twice p machine rounds text sym_key kdf_key)
    unfolding encrypt_twice
    encrypt_twice-Keeps text sym_key kdf_key = search (keeps_rules, allows) depth 14

    pub get_and_decrypt_ticket-Keeps :
        (path : Bytes) → Keeps R (get_and_decrypt_ticket p machine rounds path)
    unfolding get_and_decrypt_ticket
    get_and_decrypt_ticket-Keeps path =
        search (keeps_rules, allows, content-Keeps, generate_kdf_key_to_decrypt_ticket-Keeps) depth
          14

    ask_file_round-Keeps : (u : Unit {0}) → Keeps R (ask_file_round p machine rounds u)
    unfolding ask_file_round
    ask_file_round-Keeps u = search (keeps_rules, allows, get_owned_tickets-Keeps) depth 14

    pub ask_file_name-Keeps : Keeps R (ask_file_name p machine rounds)
    unfolding ask_file_name
    ask_file_name-Keeps = search (keeps_rules, allows, ask_file_round-Keeps) depth 14

    pub get_ticket_val_code-Keeps : Keeps R (get_ticket_val_code p machine rounds)
    unfolding get_ticket_val_code
    get_ticket_val_code-Keeps =
        search (keeps_rules, allows, ask_file_name-Keeps, get_and_decrypt_ticket-Keeps) depth 14

    show_codes-Keeps : (path : Bytes) → Keeps R (show_codes p machine rounds path)
    unfolding show_codes
    show_codes-Keeps path = search (keeps_rules, allows, get_and_decrypt_ticket-Keeps) depth 14

    pub get_integrity_code-Keeps : Keeps R (get_integrity_code p machine rounds)
    unfolding get_integrity_code
    get_integrity_code-Keeps =
        search (keeps_rules, allows, ask_file_name-Keeps, show_codes-Keeps) depth 14

    pub get_ticket-Keeps : Keeps R (get_ticket p machine rounds)
    unfolding get_ticket
    get_ticket-Keeps =
        search
          (keeps_rules, allows, ask_file_name-Keeps, get_and_decrypt_ticket-Keeps, say_all-Keeps)
          depth 14
