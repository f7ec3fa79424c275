-- ===== src/Client/Ask/Keeps.antt =====
-- Client/Ask.antt: what is asked at the terminal changes the terminal only.
use ticket_ist.Prelude.{Bytes, ℕ}
use ticket_ist.Prelude.Int.{ℤ}
use ticket_ist.Platform.{Platform}
use ticket_ist.Client.Desk.{Machine, Desk}
use ticket_ist.Client.Desk.Keeps.{Allows, Keeps, keeps_rules}
use ticket_ist.Client.Ask.{
  kdf_key, save_password_round, generate_kdf_key_to_save_ticket, decrypt_password_round,
  generate_kdf_key_to_decrypt_ticket, event_name_round, ask_for_event_name, ticket_id_round,
  ask_for_ticket_id, credentials_round, ask_for_credentials,
}

module _ {R : Desk → Desk → Type 0} (allows : Allows R) (p : Platform) (machine : Machine p.Price)
    (rounds : ℕ) where
  kdf_key-Keeps : (password : Bytes) → Keeps R (kdf_key p machine rounds password)
  unfolding kdf_key
  kdf_key-Keeps password = search (keeps_rules, allows) depth 14

  save_password_round-Keeps : (old : Bytes) → Keeps R (save_password_round p machine rounds old)
  unfolding save_password_round
  save_password_round-Keeps old = search (keeps_rules, allows) depth 14

  pub generate_kdf_key_to_save_ticket-Keeps :
      Keeps R (generate_kdf_key_to_save_ticket p machine rounds)
  unfolding generate_kdf_key_to_save_ticket
  generate_kdf_key_to_save_ticket-Keeps =
      search (keeps_rules, allows, kdf_key-Keeps, save_password_round-Keeps) depth 14

  decrypt_password_round-Keeps :
      (old : Bytes) → Keeps R (decrypt_password_round p machine rounds old)
  unfolding decrypt_password_round
  decrypt_password_round-Keeps old = search (keeps_rules, allows) depth 14

  pub generate_kdf_key_to_decrypt_ticket-Keeps :
      Keeps R (generate_kdf_key_to_decrypt_ticket p machine rounds)
  unfolding generate_kdf_key_to_decrypt_ticket
  generate_kdf_key_to_decrypt_ticket-Keeps =
      search (keeps_rules, allows, kdf_key-Keeps, decrypt_password_round-Keeps) depth 14

  event_name_round-Keeps : (old : Bytes) → Keeps R (event_name_round p machine rounds old)
  unfolding event_name_round
  event_name_round-Keeps old = search (keeps_rules, allows) depth 14

  pub ask_for_event_name-Keeps : Keeps R (ask_for_event_name p machine rounds)
  unfolding ask_for_event_name
  ask_for_event_name-Keeps = search (keeps_rules, allows, event_name_round-Keeps) depth 14

  ticket_id_round-Keeps : (old : ℤ) → Keeps R (ticket_id_round p machine rounds old)
  unfolding ticket_id_round
  ticket_id_round-Keeps old = search (keeps_rules, allows) depth 14

  pub ask_for_ticket_id-Keeps : Keeps R (ask_for_ticket_id p machine rounds)
  unfolding ask_for_ticket_id
  ask_for_ticket_id-Keeps = search (keeps_rules, allows, ticket_id_round-Keeps) depth 14

  credentials_round-Keeps : (old : Bytes × Bytes) → Keeps R (credentials_round p machine rounds old)
  unfolding credentials_round
  credentials_round-Keeps old = search (keeps_rules, allows) depth 14

  pub ask_for_credentials-Keeps :
      (old : Bytes × Bytes) → Keeps R (ask_for_credentials p machine rounds old)
  unfolding ask_for_credentials
  ask_for_credentials-Keeps old = search (keeps_rules, allows, credentials_round-Keeps) depth 14
