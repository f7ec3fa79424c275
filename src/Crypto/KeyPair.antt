-- ===== src/Crypto/KeyPair.antt =====
-- `KeyGenerator::generateKeyPair`, common/src/Crypto/KeyGenerator.cpp: an RSA key in two files.
pub mod Readable
use ticket_ist.Prelude.{◌≡◌, Bool, true, false, Bytes, if◌then◌else◌}
use ticket_ist.Prelude.Int.{ℤ}
use ticket_ist.Prelude.Map.{Map, insert}

-- How the generation ends, with the step that fails; the key is given by its two PEM texts.
pub data Keygen : Type 0 where
  generated : Bytes → Bytes → Keygen
  no_context not_initialized size_refused not_generated : Keygen

-- `fopen` of a path to write, and what `PEM_write_…` leaves in the file, with whether it succeeds.
pub record Disk : Type 0 where
  pub may_open : Bytes → Bool
  pub pem_write : Bytes → Bytes → Bool × Bytes

-- What the program relies on: a write that succeeds leaves the whole text.
pub record DiskLaws (disk : Disk) : Type 0 where
  pub writes_whole :
      (path text : Bytes)
      → (disk.pem_write path text).0 ≡ true
      → (disk.pem_write path text).1 ≡ text

module _ (disk : Disk) where
  unfoldable pub write_pem : Bytes → Bytes → Map Bytes → Bool × Map Bytes
  unfolding insert
  write_pem path text files =
      let (written, content) = disk.pem_write path text in
      if disk.may_open path then (written, insert path content files) else (false, files)

  -- The private key is written first, and stays where the public key cannot be written.
  unfoldable pub write_pair : Bytes → Bytes → Keygen → Map Bytes → Bool × Map Bytes
  unfolding write_pem
  write_pair private_file public_file (generated private_key public_key) files =
      let (written, files') = write_pem private_file private_key files in
      if written then write_pem public_file public_key files' else (false, files')
  write_pair private_file public_file _ files = (false, files)

  -- `keygen` is how the generation of a key of a size ends.
  unfoldable pub generate_key_pair : (ℤ → Keygen) → Bytes → Bytes → ℤ → Map Bytes → Bool × Map Bytes
  unfolding write_pair
  generate_key_pair keygen private_file public_file key_size files =
      write_pair private_file public_file (keygen key_size) files
