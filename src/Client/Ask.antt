-- ===== src/Client/Ask.antt =====
-- What the client asks at the terminal, and the keys that it makes of the answers, Client.cpp. The
-- lines that are printed are kept, but for the prompts.
pub mod Keeps
pub mod Files
pub mod Ends
use ticket_ist.Prelude.{
  ℕ, zero, suc, ◌+◌, ◌/◌, ◌%◌, ◌^◌, Bool, ◌||◌, [], ◌∷◌, ◌++◌, Bytes, codes, str_eq, is_empty, ◌==◌,
  if◌then◌else◌, Option, none, some,
}
use ticket_ist.Prelude.Int.{ℤ, negsuc, leb_ℤ}
use ticket_ist.Platform.{Platform, hex_digit, compute_sha256}
use ticket_ist.Crypto.Keys.{generate_key, key_derivation_function}
use ticket_ist.Client.Desk.{
  Machine, Desk, Dialog, Round, again, leave, pure, lift, look, say, loop, ask_word, ask_char,
  ask_int, rand_bytes, folder, file_exists, create_directories, write_file, ◌>>=◌, ◌>>◌,
}

-- The low hexadecimal digits of a number, as many as asked for.
hex_digits : ℕ → ℕ → Bytes
unfolding hex_digit
hex_digits zero n = []
hex_digits (suc k) n = hex_digits k (n / 16) ++ hex_digit (n % 16) ∷ []

-- A `size_t` has 16 hexadecimal digits.
unfoldable pub generate_salt : {Price : Type 0} → Machine Price → Bytes → Bytes
unfolding hex_digits
generate_salt machine input = hex_digits 16 (machine.std_hash input % 2 ^ 64)

abbrev pub salt_password : Bytes → Bytes → Bytes
salt_password password salt = password ++ salt

-- `"clients/" + username + "/SymKey.key"`
unfoldable pub key_path : Bytes → Bytes
unfolding folder
key_path username = folder username ++ codes "/SymKey.key"

unfoldable pub symmetric_key_exists : Desk → Bool
unfolding key_path file_exists
symmetric_key_exists d = file_exists (key_path d.client.username) d

abbrev pub use_new_password : ℕ → Bool
use_new_password choice = (choice == b'Y') || (choice == b'y')

abbrev another_password : ℕ → Bytes
another_password choice =
    if (choice == b'N') || (choice == b'n')
    then codes "Please enter the correct password to save the ticket"
    else codes "Invalid input."

abbrev is_missing : Bytes → Bytes → Bool
is_missing username password = is_empty username || is_empty password

abbrev pub negative : ℤ → Bool
negative n = leb_ℤ n (negsuc 0)

module _ (p : Platform) (machine : Machine p.Price) (rounds : ℕ) where
  unfoldable pub store_key : Bytes → Bytes → Dialog (Unit {0})
  unfolding create_directories write_file folder key_path ◌>>=◌ ◌>>◌
  store_key username key = do
    created ← create_directories machine (folder username)
    written ← write_file machine (key_path username) key
    if written then pure tt else say (codes "Error creating key file: " ++ key_path username)

  abbrev pub store_generated : Bytes → Option Bytes → Dialog (Unit {0})
  store_generated username none d = say (codes "Error generating symmetric key.") d
  store_generated username (some key) d = store_key username key d

  unfoldable pub generate_symetric_key : Dialog (Unit {0})
  unfolding symmetric_key_exists generate_key store_key ◌>>=◌
  generate_symetric_key = do
    exists ← look symmetric_key_exists
    username ← look (λ d. d.client.username)
    let generate = do buffer ← rand_bytes 32; store_generated username (generate_key buffer)
    if exists then pure tt else generate

  -- `generateSalt(username)` behind the password, for the user who is logged in
  abbrev pub salted : Bytes → Desk → Bytes
  salted password d = salt_password password (generate_salt machine d.client.username)

  unfoldable pub kdf_key : Bytes → Dialog Bytes
  unfolding key_derivation_function ◌>>=◌
  kdf_key password = do
    salted_pwd ← look (salted password)
    lift (key_derivation_function machine.openssl salted_pwd 10000 32)

  unfoldable pub save_password_round : Bytes → Dialog (Round Bytes Bytes)
  unfolding compute_sha256 str_eq ◌>>=◌ ◌>>◌
  save_password_round old = do
    password ← ask_word old
    matches ← look (λ d. str_eq (compute_sha256 p (salted password d)) d.hashed_password)
    let refuse = do
      say (codes "=========================================")
      say (codes "Password do not match with account.")
      say (codes "You can still save the ticket with a new password.")
      choice ← ask_char machine.any_char
      let insist = do say (another_password choice); pure (again password)
      if use_new_password choice then pure (leave password) else insist
    if matches then pure (leave password) else refuse

  unfoldable pub generate_kdf_key_to_save_ticket : Dialog Bytes
  unfolding save_password_round kdf_key loop ◌>>=◌
  generate_kdf_key_to_save_ticket = do
    password ← loop rounds save_password_round []
    kdf_key password

  unfoldable pub decrypt_password_round : Bytes → Dialog (Round Bytes Bytes)
  unfolding is_empty ◌>>=◌ ◌>>◌
  decrypt_password_round old = do
    password ← ask_word old
    let insist = do
      say (codes "Password cannot be empty. Please enter again.")
      pure (again password)
    if is_empty password then insist else pure (leave password)

  unfoldable pub generate_kdf_key_to_decrypt_ticket : Dialog Bytes
  unfolding decrypt_password_round kdf_key loop ◌>>=◌
  generate_kdf_key_to_decrypt_ticket = do
    password ← loop rounds decrypt_password_round []
    kdf_key password

  -- One round reads the name anew, and leaves the loop unless it is empty.
  unfoldable pub event_name_round : Bytes → Dialog (Round Bytes Bytes)
  unfolding is_empty ◌>>=◌ ◌>>◌
  event_name_round old = do
    event_name ← ask_word old
    let insist = do
      say (codes "Event name cannot be empty. Please enter again.")
      pure (again event_name)
    if is_empty event_name then insist else pure (leave event_name)

  unfoldable pub ask_for_event_name : Dialog Bytes
  unfolding event_name_round loop
  ask_for_event_name = loop rounds event_name_round []

  unfoldable pub ticket_id_round : ℤ → Dialog (Round ℤ ℤ)
  unfolding ◌>>=◌ ◌>>◌
  ticket_id_round old = do
    ticket_id ← ask_int old
    let insist = do
      say (codes "Ticket ID cannot be negative. Please enter again.")
      pure (again ticket_id)
    if negative ticket_id then insist else pure (leave ticket_id)

  unfoldable pub ask_for_ticket_id : Dialog ℤ
  unfolding ticket_id_round loop
  ask_for_ticket_id = loop rounds ticket_id_round machine.any_int

  unfoldable pub credentials_round : Bytes × Bytes → Dialog (Round (Bytes × Bytes) (Bytes × Bytes))
  unfolding is_empty ◌>>=◌ ◌>>◌
  credentials_round (old_username, old_password) = do
    username ← ask_word old_username
    password ← ask_word old_password
    let insist = do
      say (codes "Username and password cannot be empty. Please enter again.")
      pure (again (username, password))
    if is_missing username password then insist else pure (leave (username, password))

  unfoldable pub ask_for_credentials : Bytes × Bytes → Dialog (Bytes × Bytes)
  unfolding credentials_round loop
  ask_for_credentials old = loop rounds credentials_round old
