-- ===== src/Crypto/KeyPair/Readable.antt =====
-- The pair of keys that was generated is read back from its files.
use ticket_ist.Prelude.{◌≡◌, ◌≢◌, true, some, Bytes, arith, ok, str_eq, str_eq_iff, if◌then◌else◌}
use ticket_ist.Prelude.Int.{ℤ}
use ticket_ist.Prelude.Map.{Map, lookup, lookup-insert}
use ticket_ist.Crypto.{OpenSsl, accepted}
use ticket_ist.Crypto.Keys.{read_private_key, read_public_key}
use ticket_ist.Crypto.KeyPair.{
  Keygen, generated, Disk, DiskLaws, write_pem, write_pair, generate_key_pair,
}

module _ (disk : Disk) (laws : DiskLaws disk) where
  write_pem-lookup :
      (path text : Bytes) (files : Map Bytes)
      → (write_pem disk path text files).0 ≡ true
      → (other : Bytes)
      → lookup other (write_pem disk path text files).1
        ≡ (if str_eq other path then some text else lookup other files)
  unfolding write_pem
  write_pem-lookup path text files h other = ground (
    arith,
    h,
    laws.writes_whole path text,
    lookup-insert path other (disk.pem_write path text).1 files,
  )

  module _ (private_file public_file : Bytes) (apart : private_file ≢ public_file)
      (files : Map Bytes) where
    -- Both files, once both keys were written.
    write_pair-lookup :
        (r : Keygen) (private_key public_key : Bytes)
        → r ≡ generated private_key public_key
        → (write_pair disk private_file public_file r files).0 ≡ true
        → (lookup private_file (write_pair disk private_file public_file r files).1
            ≡ some private_key)
          × (lookup public_file (write_pair disk private_file public_file r files).1
              ≡ some public_key)
    unfolding write_pair
    write_pair-lookup r private_key public_key e h =
        let first = write_pem disk private_file private_key files in
        let at_first : first.0 ≡ true = ground (arith, e, h) in
        let at_second : (write_pem disk public_file public_key first.1).0 ≡ true =
          ground (arith, e, h) in
        ground (
          arith,
          e,
          h,
          write_pem-lookup private_file private_key files at_first private_file,
          write_pem-lookup public_file public_key first.1 at_second private_file,
          write_pem-lookup public_file public_key first.1 at_second public_file,
          str_eq_iff private_file public_file,
          str_eq_iff private_file private_file,
          str_eq_iff public_file public_file,
          apart,
        )

    -- If the key pair was generated, and both files could be written, then the two keys are read back
    -- from the two files, provided that the files are not the same, that OpenSSL reads the PEM texts it
    -- wrote, and that a write which succeeds is whole.
    pub read_key-generate_key_pair :
        (o : OpenSsl) (keygen : ℤ → Keygen) (key_size : ℤ) (private_key public_key : Bytes)
        → keygen key_size ≡ generated private_key public_key
        → (generate_key_pair disk keygen private_file public_file key_size files).0 ≡ true
        → o.private_pem private_key ≡ accepted
        → o.public_pem public_key ≡ accepted
        → (read_private_key o
              (generate_key_pair disk keygen private_file public_file key_size files).1
              private_file
            ≡ ok private_key)
          × (read_public_key o
                (generate_key_pair disk keygen private_file public_file key_size files).1
                public_file
              ≡ ok public_key)
    unfolding generate_key_pair read_private_key read_public_key
    read_key-generate_key_pair o keygen key_size private_key public_key e h reads_private
          reads_public =
        let there = write_pair-lookup (keygen key_size) private_key public_key e h in
        ground (arith, there, reads_private, reads_public)
