-- ===== src/Client/Wallet/Codes.antt =====
-- The codes that the client shows for a saved ticket, and what the server makes of them.
use ticket_ist.Prelude.{
  ℕ, suc, ◌≡◌, ◌≢◌, true, false, some, Option, List, [], ◌∷◌, ◌++◌, Bytes, codes, length, arith, ok,
  str_eq_refl, str_eq_iff,
}
use ticket_ist.Prelude.Map.{lookup, insert, contains, lookup-insert}
use ticket_ist.Floats.{FloatLaws}
use ticket_ist.Text.Stream.{Stream}
use ticket_ist.Text.Input.{read_word}
use ticket_ist.Platform.{Platform, compute_sha256}
use ticket_ist.Crypto.{CipherLaws, block_size, protect_symetric}
use ticket_ist.Crypto.Keys.{read_key}
use ticket_ist.Ticket.{Ticket}
use ticket_ist.Ticket.Format
use ticket_ist.Ticket.Format.{IsPrintable, deserialize-serialize_ticket}
use ticket_ist.Service.Tickets
use ticket_ist.Client.Desk.{
  Machine, Desk, done, loop, continue, catch, handle, file_exists, ◌>>=◌, ◌>>◌,
}
use ticket_ist.Client.Ask.{key_path}
use ticket_ist.Client.Folder.{ticket_path}
use ticket_ist.Client.Wallet.{
  cut_integrity_code, ask_file_round, ask_file_name, show_codes, get_integrity_code, save_ticket,
}
use ticket_ist.Client.Wallet.Kept.{sealed, IsOpened, get_and_decrypt_ticket-sealed}
use ticket_ist.Client.Wallet.Saved.{IsSaving, saved_output, save_ticket_lem}

-- The client cuts the code out of a hash as the server does.
pub cut_integrity_code-integrity_code :
    (hash : Bytes) → cut_integrity_code hash ≡ Tickets.integrity_code hash
unfolding cut_integrity_code Tickets.integrity_code
cut_integrity_code-integrity_code hash = ground arith

abbrev pub shown : Bytes → Bytes → List Bytes → List Bytes
shown val_code code output =
    ((output ++ codes "Computing Integrity Code..." ∷ [])
      ++ (codes "Validation Code: " ++ val_code) ∷ [])
    ++ (codes "Integrity Code: " ++ code) ∷ []

module _ (p : Platform) (machine : Machine p.Price) (rounds : ℕ) where
  -- The name of a file that is there is taken at once.
  ask_file_name_lem :
      (d : Desk) (name : Bytes) (input : Stream)
      → read_word [] d.input ≡ (name, input)
      → file_exists (ticket_path d.client.username name) d ≡ true
      → ask_file_name p machine (suc rounds) d
        ≡ (done (ticket_path d.client.username name), record d { input = input })
  unfolding ask_file_name loop ask_file_round file_exists continue ◌>>=◌ ◌>>◌
  ask_file_name_lem d name input names there = ground (arith, names, there)

  show_codes_lem :
      (laws : FloatLaws p.floats) (cipher : CipherLaws machine.openssl) (t : Ticket p.Price)
      (path sym_key password kdf iv outer_iv code : Bytes) (input : Stream) (d : Desk)
      → IsPrintable t
      → IsOpened p machine rounds path
          (Format.serialize p.floats t)
          sym_key
          password
          kdf
          iv
          outer_iv
          input
          d
      → cut_integrity_code (compute_sha256 p (Format.serialize p.floats t)) ≡ ok code
      → show_codes p machine (suc rounds) path d
        ≡ (done tt, record d { input = input; output = shown t.validation_code code d.output })
  unfolding show_codes continue ◌>>=◌ ◌>>◌
  show_codes_lem laws cipher t path sym_key password kdf iv outer_iv code input d printable h cuts =
      let (y, reads, prints) = deserialize-serialize_ticket p.floats laws t printable in
      ground (
        arith,
        get_and_decrypt_ticket-sealed p machine rounds cipher path (Format.serialize p.floats t)
            sym_key password kdf iv outer_iv input d h,
        cuts,
        reads,
      )

  -- The desk behind the run that saves.
  abbrev saved : Bytes → Bytes → Stream → List (ℕ → Option Bytes) → Desk → Desk
  saved name text after draws d = record d {
    files = insert (ticket_path d.client.username name) text d.files;
    input = after;
    output = saved_output p machine rounds name d;
    draws = draws;
  }

  found_again :
      (d : Desk) (path key text sym_key : Bytes)
      → lookup key d.files ≡ some sym_key
      → file_exists path d ≡ false
      → (lookup path (insert path text d.files) ≡ some text)
        × (contains path (insert path text d.files) ≡ true)
        × (read_key (insert path text d.files) key ≡ ok sym_key)
  unfolding file_exists contains read_key
  found_again d path key text sym_key keyed free = ground (
    arith,
    keyed,
    free,
    str_eq_refl path,
    str_eq_iff key path,
    lookup-insert path path text d.files,
    lookup-insert path key text d.files,
  )

  get_integrity_code_lem :
      (laws : FloatLaws p.floats) (cipher : CipherLaws machine.openssl) (t : Ticket p.Price)
      (name sym_key password kdf iv outer_iv code : Bytes) (input rest : Stream) (d : Desk)
      → read_word [] d.input ≡ (name, input)
      → file_exists (ticket_path d.client.username name) d ≡ true
      → IsPrintable t
      → IsOpened p machine rounds
          (ticket_path d.client.username name)
          (Format.serialize p.floats t)
          sym_key
          password
          kdf
          iv
          outer_iv
          rest
          (record d { input = input })
      → cut_integrity_code (compute_sha256 p (Format.serialize p.floats t)) ≡ ok code
      → (get_integrity_code p machine (suc rounds) d).1.output
        ≡ shown t.validation_code code d.output
  unfolding get_integrity_code catch handle continue ◌>>=◌
  get_integrity_code_lem laws cipher t name sym_key password kdf iv outer_iv code input rest d names
        there printable h cuts =
      let path = ticket_path d.client.username name in
      ground (
        arith,
        ask_file_name_lem d name input names there,
        show_codes_lem laws cipher t path sym_key password kdf iv outer_iv code rest
            (record d { input = input }) printable h cuts,
      )

  module _ (laws : FloatLaws p.floats) (cipher : CipherLaws machine.openssl) (t : Ticket p.Price)
      (received sym_key password kdf iv outer_iv name code : Bytes)
      (input after typed rest : Stream) (draw outer_draw : ℕ → Option Bytes)
      (draws : List (ℕ → Option Bytes)) (d : Desk) where
    pub get_integrity_code-save_ticket :
        IsPrintable t
        → IsSaving p machine rounds received
            (Format.serialize p.floats t)
            sym_key
            password
            kdf
            iv
            outer_iv
            name
            input
            after
            draw
            outer_draw
            draws
            d
        → length iv ≡ block_size
        → length outer_iv ≡ block_size
        → protect_symetric machine.openssl (some iv) (Format.serialize p.floats t) sym_key ≢ []
        → sealed p machine rounds iv outer_iv (Format.serialize p.floats t) sym_key kdf ≢ []
        → read_word [] after ≡ (name, typed)
        → read_word [] typed ≡ (password, rest)
        → cut_integrity_code (compute_sha256 p (Format.serialize p.floats t)) ≡ ok code
        → (get_integrity_code p machine
            (suc rounds)
            (save_ticket p machine (suc rounds) received d).1).1.output
          ≡ shown t.validation_code code (saved_output p machine rounds name d)
    unfolding file_exists
    get_integrity_code-save_ticket printable h sized outer_sized encrypts outer_encrypts names types
          cuts =
        let path = ticket_path d.client.username name in
        let text = sealed p machine rounds iv outer_iv (Format.serialize p.floats t) sym_key kdf in
        let (held, there, keyed) =
          found_again d path (key_path d.client.username) text sym_key h.keyed h.is_free in
        rw
          (save_ticket_lem p machine rounds received (Format.serialize p.floats t) sym_key password
            kdf iv outer_iv name input after draw outer_draw draws d h)
          (get_integrity_code_lem laws cipher t name sym_key password kdf iv outer_iv code typed
            rest (saved name text after draws d) names (ground (arith, there)) printable
            (record {
              holds = held;
              keyed = keyed;
              types = types;
              not_empty = h.not_empty;
              derives = h.derives;
              sized = sized;
              outer_sized = outer_sized;
              encrypts = encrypts;
              outer_encrypts = outer_encrypts;
            })
            cuts)
