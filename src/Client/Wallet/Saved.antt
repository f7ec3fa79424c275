-- ===== src/Client/Wallet/Saved.antt =====
-- What a run of `saveTicket` that saves leaves behind.
use ticket_ist.Prelude.{
  ℕ, suc, ◌≡◌, true, false, some, Option, List, [], ◌∷◌, ◌++◌, Bytes, codes, is_empty, arith, ok,
  str_eq_refl,
}
use ticket_ist.Prelude.Map.{lookup, insert, contains}
use ticket_ist.Text.Stream.{Stream}
use ticket_ist.Text.Input.{read_word}
use ticket_ist.Platform.{Platform, compute_sha256}
use ticket_ist.Message.AcceptAuth
use ticket_ist.Message.AcceptAuth.{AcceptAuthMessage}
use ticket_ist.Crypto.{block_size}
use ticket_ist.Crypto.Keys.{read_key, key_derivation_function}
use ticket_ist.Client.Desk.{
  Machine, Desk, done, loop, continue, catch, handle, folder, is_directory, file_exists, write_file,
  ◌>>=◌, ◌>>◌,
}
use ticket_ist.Client.Ask.{
  symmetric_key_exists, key_path, salted, kdf_key, generate_kdf_key_to_save_ticket,
  save_password_round,
}
use ticket_ist.Client.Folder.{is_file_name, ticket_path}
use ticket_ist.Client.Wallet.{
  open_folder, start_save, try_save_ticket, save_ticket, file_name_round, write_ticket,
  encrypt_twice, store_ticket,
}
use ticket_ist.Client.Wallet.Kept.{sealed}

module _ (p : Platform) (machine : Machine p.Price) (rounds : ℕ) where
  -- The run of `saveTicket` that saves: the reply holds a text, the folder and the key are there, the
  -- password of the account is typed and then a file name that is free, both initial vectors are
  -- drawn, and the file can be written.
  pub record IsSaving (received text sym_key password kdf iv outer_iv name : Bytes)
      (input after : Stream) (draw outer_draw : ℕ → Option Bytes) (draws : List (ℕ → Option Bytes))
      (d : Desk) : Type 0 where
    pub message : AcceptAuthMessage
    pub received_reads : AcceptAuth.deserialize received ≡ ok message
    pub text_of : message.message ≡ text
    pub folder_there : is_directory (folder d.client.username) d.directories ≡ true
    pub keyed : lookup (key_path d.client.username) d.files ≡ some sym_key
    pub types : read_word [] d.input ≡ (password, input)
    pub not_empty : is_empty password ≡ false
    pub matches : compute_sha256 p (salted p machine rounds password d) ≡ d.hashed_password
    pub derives :
        key_derivation_function machine.openssl (salted p machine rounds password d) 10000 32
        ≡ ok kdf
    pub draws_two : d.draws ≡ draw ∷ outer_draw ∷ draws
    pub drawn : draw block_size ≡ some iv
    pub outer_drawn : outer_draw block_size ≡ some outer_iv
    pub names : read_word [] input ≡ (name, after)
    pub is_name : is_file_name name ≡ true
    pub is_free : file_exists (ticket_path d.client.username name) d ≡ false
    pub may_write : machine.may_write (ticket_path d.client.username name) ≡ true

  abbrev pub saved_output : Bytes → Desk → List Bytes
  saved_output name d =
      (d.output ++ codes "Saving ticket..." ∷ [])
      ++ (codes "Ticket saved to: " ++ ticket_path d.client.username name) ∷ []

  typed_new_key :
      (d : Desk) (password kdf : Bytes) (input : Stream)
      → read_word [] d.input ≡ (password, input)
      → compute_sha256 p (salted p machine rounds password d) ≡ d.hashed_password
      → key_derivation_function machine.openssl (salted p machine rounds password d) 10000 32
        ≡ ok kdf
      → generate_kdf_key_to_save_ticket p machine (suc rounds) d
        ≡ (done kdf, record d { input = input })
  unfolding generate_kdf_key_to_save_ticket loop save_password_round kdf_key continue ◌>>=◌ ◌>>◌
  typed_new_key d password kdf input types matches derives =
      ground (arith, types, matches, derives, str_eq_refl d.hashed_password)

  encrypt_twice_lem :
      (d : Desk) (text sym_key kdf iv outer_iv : Bytes) (draw outer_draw : ℕ → Option Bytes)
      (draws : List (ℕ → Option Bytes))
      → d.draws ≡ draw ∷ outer_draw ∷ draws
      → draw block_size ≡ some iv
      → outer_draw block_size ≡ some outer_iv
      → encrypt_twice p machine (suc rounds) text sym_key kdf d
        ≡ (done (sealed p machine rounds iv outer_iv text sym_key kdf), record d { draws = draws })
  unfolding encrypt_twice continue ◌>>=◌
  encrypt_twice_lem d text sym_key kdf iv outer_iv draw outer_draw draws e e1 e2 =
      ground (arith, e, e1, e2)

  store_ticket_lem :
      (d : Desk) (text name : Bytes) (after : Stream)
      → read_word [] d.input ≡ (name, after)
      → is_file_name name ≡ true
      → file_exists (ticket_path d.client.username name) d ≡ false
      → machine.may_write (ticket_path d.client.username name) ≡ true
      → store_ticket p machine (suc rounds) text d ≡ (
        done tt,
        record d {
          files = insert (ticket_path d.client.username name) text d.files;
          input = after;
          output =
              d.output ++ (codes "Ticket saved to: " ++ ticket_path d.client.username name) ∷ [];
        },
      )
  unfolding store_ticket loop file_name_round write_ticket write_file file_exists continue ◌>>=◌
      ◌>>◌
  store_ticket_lem d text name after names ok_name free may =
      ground (arith, names, ok_name, free, may)

  start_save_lem :
      (received text sym_key : Bytes) (d : Desk) (m : AcceptAuthMessage)
      → AcceptAuth.deserialize received ≡ ok m
      → m.message ≡ text
      → is_directory (folder d.client.username) d.directories ≡ true
      → lookup (key_path d.client.username) d.files ≡ some sym_key
      → start_save p machine (suc rounds) received d
        ≡ (done (text, sym_key), record d { output = d.output ++ codes "Saving ticket..." ∷ [] })
  unfolding start_save open_folder symmetric_key_exists read_key file_exists contains continue ◌>>=◌
      ◌>>◌
  start_save_lem received text sym_key d m reads message there keyed =
      ground (arith, reads, message, there, keyed)

  pub save_ticket_lem :
      (received text sym_key password kdf iv outer_iv name : Bytes) (input after : Stream)
      (draw outer_draw : ℕ → Option Bytes) (draws : List (ℕ → Option Bytes)) (d : Desk)
      → IsSaving received text sym_key password kdf iv outer_iv name input after draw outer_draw
          draws d
      → save_ticket p machine (suc rounds) received d ≡ (
        done tt,
        record d {
          files =
              insert
                (ticket_path d.client.username name)
                (sealed p machine rounds iv outer_iv text sym_key kdf)
                d.files;
          input = after;
          output = saved_output name d;
          draws = draws;
        },
      )
  unfolding save_ticket try_save_ticket catch handle continue ◌>>=◌
  save_ticket_lem received text sym_key password kdf iv outer_iv name input after draw outer_draw
        draws d h =
      let d1 = record d { output = d.output ++ codes "Saving ticket..." ∷ [] } in
      let d2 = record d1 { input = input } in
      let d3 = record d2 { draws = draws } in
      ground (
        arith,
        start_save_lem received text sym_key d h.message h.received_reads h.text_of h.folder_there
            h.keyed,
        typed_new_key d1 password kdf input h.types h.matches h.derives,
        encrypt_twice_lem d2 text sym_key kdf iv outer_iv draw outer_draw draws h.draws_two h.drawn
            h.outer_drawn,
        store_ticket_lem d3 (sealed p machine rounds iv outer_iv text sym_key kdf) name after
            h.names h.is_name h.is_free h.may_write,
      )
