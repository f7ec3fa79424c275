-- ===== src/Crypto/Keys.antt =====
-- `KeyGenerator`, common/src/Crypto/KeyGenerator.cpp: keys of random characters, keys out of
-- passwords, and keys in files, which are a map from the path to the contents.
use ticket_ist.Prelude.{
  ℕ, suc, ◌%◌, ◌≡◌, refl, ap, Option, none, some, [], ◌∷◌, ◌++◌, arith, Bytes, codes, length,
  get_or, Result, ok, throw, or_throw, runtime_error,
}
use ticket_ist.Prelude.Map.{Map, lookup}
use ticket_ist.Ticket.Code.{IsWord, IsWordByte, code_chars, get_or-All}
use mathlib.Core.Option.{some_inj}
use ticket_ist.Crypto.{OpenSsl, Pem, accepted, no_bio, refused}

-- `charset[randByte % charsetSize]` for every byte of the buffer
unfoldable pub key_chars : Bytes → Bytes
key_chars [] = []
key_chars (rand_byte ∷ buffer) = get_or code_chars (rand_byte % 62) 0 ∷ key_chars buffer

-- `none` where it returns false.
unfoldable pub generate_key : Option Bytes → Option Bytes
unfolding key_chars
generate_key none = none
generate_key (some buffer) = some (key_chars buffer)

unfoldable pub read_key : Map Bytes → Bytes → Result Bytes
unfolding lookup
read_key files path =
    or_throw (lookup path files) (runtime_error (codes "Failed to open key file: " ++ path))

-- The text of a PEM key is returned as it stands in the file.
abbrev pub check_pem : Bytes → Bytes → Pem → Result Bytes
check_pem content failed accepted = ok content
check_pem content failed no_bio =
    throw (runtime_error (codes "Failed to create BIO for key content"))
check_pem content failed (refused reason) = throw (runtime_error (failed ++ reason))

unfoldable pub read_private_key : OpenSsl → Map Bytes → Bytes → Result Bytes
unfolding lookup
read_private_key o files path = elim (lookup path files) [
  | none ↦ throw (runtime_error (codes "Failed to open key file: " ++ path))
  | some content ↦ check_pem content (codes "Failed to read private key: ") (o.private_pem content)
]

unfoldable pub read_public_key : OpenSsl → Map Bytes → Bytes → Result Bytes
unfolding lookup
read_public_key o files path = elim (lookup path files) [
  | none ↦ throw (runtime_error (codes "Failed to open public key file: " ++ path))
  | some content ↦ check_pem content (codes "Failed to read public key: ") (o.public_pem content)
]

unfoldable pub key_derivation_function : OpenSsl → Bytes → ℕ → ℕ → Result Bytes
key_derivation_function o salted_password iterations key_length =
    or_throw (o.pbkdf2 salted_password iterations key_length)
      (runtime_error (codes "Key derivation failed"))

key_chars_lem :
    (buffer : Bytes) → (length (key_chars buffer) ≡ length buffer) × IsWord (key_chars buffer)
unfolding key_chars
key_chars_lem [] = (refl, tt)
key_chars_lem (b ∷ buffer) =
    let (sizes, words) = key_chars_lem buffer in
    (ap suc sizes, (get_or-All IsWordByte code_chars (b % 62) (ground arith) (omega arith), words))

-- A generated key has a character for each byte drawn, each a letter or a digit.
pub generate_key_lem :
    (buffer key : Bytes)
    → generate_key (some buffer) ≡ some key
    → (length key ≡ length buffer) × IsWord key
unfolding generate_key
generate_key_lem buffer key h =
    let e : key_chars buffer ≡ key = some_inj.0 h in rw (← e) (key_chars_lem buffer)
