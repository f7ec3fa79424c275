-- ===== src/Client/Wallet/Kept.antt =====
-- A saved ticket is opened with the password that it was saved with.
use ticket_ist.Prelude.{ℕ, suc, ◌≡◌, ◌≢◌, false, some, [], Bytes, length, is_empty, arith, ok}
use ticket_ist.Prelude.Map.{lookup}
use ticket_ist.Text.Stream.{Stream}
use ticket_ist.Text.Input.{read_word}
use ticket_ist.Platform.{Platform}
use ticket_ist.Crypto.{CipherLaws, block_size, protect_symetric}
use ticket_ist.Crypto.Keys.{read_key, key_derivation_function}
use ticket_ist.Crypto.Seal.{unprotect_symetric-protect_symetric}
use ticket_ist.Client.Desk.{Machine, Desk, done, loop, continue, ◌>>=◌, ◌>>◌}
use ticket_ist.Client.Ask.{
  key_path, salted, kdf_key, decrypt_password_round, generate_kdf_key_to_decrypt_ticket,
}
use ticket_ist.Client.Wallet.{get_and_decrypt_ticket}

module _ (p : Platform) (machine : Machine p.Price) (rounds : ℕ) where
  -- The text under both keys, as `saveTicket` writes it.
  abbrev pub sealed : Bytes → Bytes → Bytes → Bytes → Bytes → Bytes
  sealed iv outer_iv text sym_key kdf =
      protect_symetric machine.openssl (some outer_iv)
        (protect_symetric machine.openssl (some iv) text sym_key) kdf

  -- A word at the terminal is taken as the password at once.
  typed_key :
      (d : Desk) (password kdf : Bytes) (input : Stream)
      → read_word [] d.input ≡ (password, input)
      → is_empty password ≡ false
      → key_derivation_function machine.openssl (salted p machine rounds password d) 10000 32
        ≡ ok kdf
      → generate_kdf_key_to_decrypt_ticket p machine (suc rounds) d
        ≡ (done kdf, record d { input = input })
  unfolding generate_kdf_key_to_decrypt_ticket loop decrypt_password_round kdf_key continue ◌>>=◌
      ◌>>◌
  typed_key d password kdf input types some_text derives = ground (arith, types, some_text, derives)

  -- What a ticket file is opened with: its contents, the key file, and the password typed next.
  pub record IsOpened (path text sym_key password kdf iv outer_iv : Bytes) (input : Stream)
      (d : Desk) : Type 0 where
    pub holds : lookup path d.files ≡ some (sealed iv outer_iv text sym_key kdf)
    pub keyed : read_key d.files (key_path d.client.username) ≡ ok sym_key
    pub types : read_word [] d.input ≡ (password, input)
    pub not_empty : is_empty password ≡ false
    pub derives :
        key_derivation_function machine.openssl (salted p machine rounds password d) 10000 32
        ≡ ok kdf
    pub sized : length iv ≡ block_size
    pub outer_sized : length outer_iv ≡ block_size
    pub encrypts : protect_symetric machine.openssl (some iv) text sym_key ≢ []
    pub outer_encrypts : sealed iv outer_iv text sym_key kdf ≢ []

  pub get_and_decrypt_ticket-sealed :
      (laws : CipherLaws machine.openssl) (path text sym_key password kdf iv outer_iv : Bytes)
      (input : Stream) (d : Desk)
      → IsOpened path text sym_key password kdf iv outer_iv input d
      → get_and_decrypt_ticket p machine (suc rounds) path d
        ≡ (done text, record d { input = input })
  unfolding get_and_decrypt_ticket continue ◌>>=◌
  get_and_decrypt_ticket-sealed laws path text sym_key password kdf iv outer_iv input d h =
      let inner = protect_symetric machine.openssl (some iv) text sym_key in
      ground (
        arith,
        h.holds,
        h.keyed,
        typed_key d password kdf input h.types h.not_empty h.derives,
        unprotect_symetric-protect_symetric machine.openssl laws outer_iv inner kdf h.outer_sized
            h.outer_encrypts,
        unprotect_symetric-protect_symetric machine.openssl laws iv text sym_key h.sized h.encrypts,
      )
