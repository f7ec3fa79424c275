-- ===== src/Client/Wallet.antt =====
-- Tickets in files, Client.cpp: `saveTicket`, `getAndDecryptTicket`, `askFileName`, `getTicketValCode`,
-- `getIntegrityCode` and `getTicket`.
pub mod Keeps
pub mod Files
pub mod Ends
pub mod Kept
pub mod Saved
pub mod Codes
pub mod Accepted
use ticket_ist.Prelude.{
  ℕ, ◌+◌, ◌-◌, not, Option, none, some, [], ◌++◌, Bytes, codes, length, take, drop, ltb,
  if◌then◌else◌, Exception, Result, ok, throw, out_of_range, runtime_error,
}
use ticket_ist.Prelude.Map.{lookup}
use ticket_ist.Platform.{Platform, compute_sha256}
use ticket_ist.Crypto.{protect_symetric, unprotect_symetric, block_size}
use ticket_ist.Crypto.Keys.{read_key}
use ticket_ist.Ticket.{Ticket}
use ticket_ist.Ticket.Format
use ticket_ist.Ticket.Print.{print_ticket}
use ticket_ist.Message.AcceptAuth
use ticket_ist.Client.Desk.{
  Machine, Dialog, Round, again, leave, done, pure, raise, lift, look, what, say, loop, catch,
  ask_word, rand_bytes, folder, is_directory, file_exists, create_directories, write_file, ◌>>=◌,
  ◌>>◌,
}
use ticket_ist.Client.Ask.{
  key_path, symmetric_key_exists, generate_kdf_key_to_save_ticket,
  generate_kdf_key_to_decrypt_ticket,
}
use ticket_ist.Client.Folder.{ticket_path, is_file_name, say_all, get_owned_tickets}

-- `hash.substr(0, 5) + hash.substr(hash.size() - 5)`, where a text that is too short throws
unfoldable pub cut_integrity_code : Bytes → Result Bytes
cut_integrity_code hash =
    if ltb (length hash) 5
    then throw (out_of_range (codes "basic_string::substr"))
    else ok (take 5 hash ++ drop (length hash - 5) hash)

abbrev invalid_name : Bytes
invalid_name =
    codes "Invalid file name. Please use only alphanumeric characters, underscores, or hyphens."

abbrev ask_again : Bytes → Bytes → Dialog (Round Bytes Bytes)
ask_again name line d = (say line >> pure (again name)) d

abbrev pub wrong_password : Exception → Dialog (Unit {0})
wrong_password e = say (codes "Error: Password is incorrect. Please try again.")

module _ (p : Platform) (machine : Machine p.Price) (rounds : ℕ) where
  unfoldable pub file_name_round : Bytes → Dialog (Round Bytes Bytes)
  unfolding is_file_name ticket_path file_exists ◌>>=◌ ◌>>◌
  file_name_round old = do
    name ← ask_word old
    exists ← look (λ d. file_exists (ticket_path d.client.username name) d)
    if is_file_name name
        then (if exists
            then ask_again name (codes "File already exists. Please choose a different name.")
            else pure (leave name))
        else ask_again name invalid_name

  unfoldable pub open_folder : Dialog (Unit {0})
  unfolding folder is_directory create_directories ◌>>=◌ ◌>>◌
  open_folder = do
    username ← look (λ d. d.client.username)
    there ← look (λ d. is_directory (folder username) d.directories)
    let create = do
      created ← create_directories machine (folder username)
      if created
          then pure tt
          else raise
              (runtime_error (codes "Failed to create directory: " ++ folder username ++ codes "/"))
    if there then pure tt else create

  -- The text is encrypted under the key in the file, and the result under the password's key.
  unfoldable pub encrypt_twice : Bytes → Bytes → Bytes → Dialog Bytes
  unfolding protect_symetric ◌>>=◌
  encrypt_twice ticket_data sym_key kdf_key = do
    iv ← rand_bytes block_size
    let encrypted_ticket = protect_symetric machine.openssl iv ticket_data sym_key
    outer_iv ← rand_bytes block_size
    pure (protect_symetric machine.openssl outer_iv encrypted_ticket kdf_key)

  unfoldable pub write_ticket : Bytes → Bytes → Dialog (Unit {0})
  unfolding ticket_path write_file ◌>>=◌ ◌>>◌
  write_ticket double_encrypted_ticket name = do
    username ← look (λ d. d.client.username)
    is_open ← write_file machine (ticket_path username name) double_encrypted_ticket
    if is_open
        then say (codes "Ticket saved to: " ++ ticket_path username name)
        else raise
            (runtime_error (codes "Failed to open file for writing: " ++ ticket_path username name))

  unfoldable pub store_ticket : Bytes → Dialog (Unit {0})
  unfolding loop file_name_round write_ticket ◌>>=◌
  store_ticket double_encrypted_ticket = do
    name ← loop rounds file_name_round []
    write_ticket double_encrypted_ticket name

  -- The ticket out of the reply, and the key of the user.
  unfoldable pub start_save : Bytes → Dialog (Bytes × Bytes)
  unfolding open_folder symmetric_key_exists read_key key_path ◌>>=◌ ◌>>◌
  start_save received_message = do
    say (codes "Saving ticket...")
    m ← lift (AcceptAuth.deserialize received_message)
    open_folder
    exists ← look symmetric_key_exists
    if exists
        then pure tt
        else raise (runtime_error (codes "Something went wrong. Please log in again."))
    sym_key ← look (λ d. read_key d.files (key_path d.client.username)) >>= lift
    pure (m.message, sym_key)

  -- What stands in the `try`.
  unfoldable pub try_save_ticket : Bytes → Dialog (Unit {0})
  unfolding start_save generate_kdf_key_to_save_ticket encrypt_twice store_ticket ◌>>=◌
  try_save_ticket received_message = do
    (ticket_data, sym_key) ← start_save received_message
    kdf_key ← generate_kdf_key_to_save_ticket p machine rounds
    sealed ← encrypt_twice ticket_data sym_key kdf_key
    store_ticket sealed

  unfoldable pub save_ticket : Bytes → Dialog (Unit {0})
  unfolding try_save_ticket catch
  save_ticket received_message =
      catch (try_save_ticket received_message) (λ e. say (codes "Error saving ticket: " ++ what e))

  abbrev pub content : Bytes → Option Bytes → Dialog Bytes
  content path none d = (say (codes "Error: Could not open file: " ++ path) >> pure []) d
  content path (some text) d = (done text, d)

  -- A file that cannot be opened counts as empty.
  unfoldable pub get_and_decrypt_ticket : Bytes → Dialog Bytes
  unfolding lookup read_key key_path generate_kdf_key_to_decrypt_ticket unprotect_symetric ◌>>=◌
      ◌>>◌
  get_and_decrypt_ticket path = do
    data_ ← look (λ d. lookup path d.files) >>= content path
    sym_key ← look (λ d. read_key d.files (key_path d.client.username)) >>= lift
    kdf_key ← generate_kdf_key_to_decrypt_ticket p machine rounds
    half_decrypted ← lift (unprotect_symetric machine.openssl data_ kdf_key)
    lift (unprotect_symetric machine.openssl half_decrypted sym_key)

  unfoldable pub ask_file_round : Unit {0} → Dialog (Round (Unit {0}) Bytes)
  unfolding ticket_path file_exists get_owned_tickets ◌>>=◌ ◌>>◌
  ask_file_round _ = do
    name ← ask_word []
    path ← look (λ d. ticket_path d.client.username name)
    exists ← look (file_exists path)
    let retry = do
      say (codes "Ticket does not exist. Please enter a valid ticket name.")
      get_owned_tickets
      pure (again tt)
    if exists then pure (leave path) else retry

  unfoldable pub ask_file_name : Dialog Bytes
  unfolding loop ask_file_round
  ask_file_name = loop rounds ask_file_round tt

  unfoldable pub get_ticket_val_code : Dialog (Unit {0})
  unfolding ask_file_name get_and_decrypt_ticket Format.deserialize catch ◌>>=◌ ◌>>◌
  get_ticket_val_code = do
    path ← ask_file_name
    let show = do
      ticket_data ← get_and_decrypt_ticket path
      ticket ← lift (Format.deserialize p.floats ticket_data)
      say (codes "Validation Code: " ++ ticket.validation_code)
    catch show wrong_password

  -- The codes are shown for the text that was decrypted, once it was read as a ticket.
  unfoldable pub show_codes : Bytes → Dialog (Unit {0})
  unfolding get_and_decrypt_ticket compute_sha256 cut_integrity_code Format.deserialize ◌>>=◌ ◌>>◌
  show_codes path = do
    ticket_data ← get_and_decrypt_ticket path
    say (codes "Computing Integrity Code...")
    integrity_code ← lift (cut_integrity_code (compute_sha256 p ticket_data))
    ticket ← lift (Format.deserialize p.floats ticket_data)
    say (codes "Validation Code: " ++ ticket.validation_code)
    say (codes "Integrity Code: " ++ integrity_code)

  unfoldable pub get_integrity_code : Dialog (Unit {0})
  unfolding ask_file_name show_codes catch ◌>>=◌
  get_integrity_code = do path ← ask_file_name; catch (show_codes path) wrong_password

  unfoldable pub get_ticket : Dialog (Unit {0})
  unfolding ask_file_name get_and_decrypt_ticket Format.deserialize print_ticket say_all catch ◌>>=◌
  get_ticket = do
    path ← ask_file_name
    let show = do
      ticket_data ← get_and_decrypt_ticket path
      ticket ← lift (Format.deserialize p.floats ticket_data)
      say_all (print_ticket p.floats ticket)
    catch show wrong_password
