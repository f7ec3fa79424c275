-- ===== src/Crypto.antt =====
-- `CryptographicLibrary`, common/src/Crypto/CryptographicLibrary.cpp, but for `computeSHA256`, which
-- stands in Platform.antt. What OpenSSL computes, and where it fails, is a parameter; so are
-- the random bytes of a call, which are `none` where `RAND_bytes` fails.
pub mod Keys
pub mod Seal
pub mod Padding
pub mod Tickets
pub mod Asymmetric
pub mod KeyPair
use ticket_ist.Prelude.{
  ℕ, ◌≡◌, Bool, true, false, not, ◌||◌, Option, none, some, List, [], ◌∷◌, ◌++◌, Bytes, codes,
  length, take, drop, is_empty, str_eq, ltb, ◌==◌, if◌then◌else◌, Result, ok, throw, runtime_error,
}

-- How the three calls that decrypt end, with the step that fails.
pub data Decryption : Type 0 where
  decrypted : Bytes → Decryption
  no_context not_initialized not_decrypted not_finalized : Decryption

-- How OpenSSL reads a key in PEM form.
pub data Pem : Type 0 where
  accepted : Pem
  no_bio : Pem
  refused : Bytes → Pem

-- How an RSA operation ends, with the step that fails.
pub data Rsa : Type 0 where
  performed : Bytes → Rsa
  no_key_context no_operation no_size not_performed : Rsa

pub record OpenSsl : Type 0 where
  -- AES-CBC, with the size that its key says: key, initial vector, text; `none` where a call fails
  pub encrypt : Bytes → Bytes → Bytes → Option Bytes
  pub decrypt : Bytes → Bytes → Bytes → Decryption
  -- `PKCS5_PBKDF2_HMAC` with SHA-256 and no salt: password, rounds, size
  pub pbkdf2 : Bytes → ℕ → ℕ → Option Bytes
  pub private_pem : Bytes → Pem
  pub public_pem : Bytes → Pem
  -- RSA with the key of a PEM text, to encrypt (true) or to decrypt
  pub rsa : Bytes → Bool → Bytes → Rsa

-- What the program relies on: under the same key and initial vector a text that was encrypted is
-- decrypted to itself.
pub record CipherLaws (o : OpenSsl) : Type 0 where
  pub decrypts :
      (key iv text sealed : Bytes)
      → o.encrypt key iv text ≡ some sealed
      → o.decrypt key iv sealed ≡ decrypted text

abbrev pub block_size : ℕ
block_size = 16

abbrev pub is_supported : ℕ → Bool
is_supported n = (n == 16) || (n == 24) || (n == 32)

unfoldable pub check : Bytes → Bool
unfolding is_empty
check is_encrypted = not (is_empty is_encrypted)

-- `c_str()`, read up to its first null
unfoldable pub c_str : Bytes → Bytes
c_str [] = []
c_str (c ∷ s) = let rest = c_str s in if c == 0 then [] else c ∷ rest

-- A key that is loaded, as its PEM text; `none` is a null pointer.
abbrev pub loaded : Bytes → Pem → Option Bytes
loaded text accepted = some text
loaded text no_bio = none
loaded text (refused reason) = none

unfoldable pub load_key : OpenSsl → Bytes → Bool → Option Bytes
unfolding c_str
load_key o key is_private_key =
    let text = c_str key in
    loaded text (if is_private_key then o.private_pem text else o.public_pem text)

-- `handleOpenSSLError` returns the empty text.
abbrev pub rsa_result : Rsa → Bytes
rsa_result (performed text) = text
rsa_result no_key_context = []
rsa_result no_operation = []
rsa_result no_size = []
rsa_result not_performed = []

unfoldable pub perform_rsa_operation : OpenSsl → Bytes → Bytes → Bool → Bytes
perform_rsa_operation o data_ pkey encrypt = rsa_result (o.rsa pkey encrypt data_)

unfoldable pub protect_symetric : OpenSsl → Option Bytes → Bytes → Bytes → Bytes
protect_symetric o none to_encrypt key = []
protect_symetric o (some iv) to_encrypt key =
    if is_supported (length key)
    then elim (o.encrypt key iv to_encrypt) [ none ↦ [] | some encrypted ↦ iv ++ encrypted ]
    else []

abbrev pub unsupported : Bytes
unsupported = codes "Error: Unsupported key size. Must be 16, 24, or 32 bytes."

abbrev pub decryption : Decryption → Result Bytes
decryption (decrypted text) = ok text
decryption no_context = throw (runtime_error (codes "Error creating EVP context"))
decryption not_initialized = throw (runtime_error (codes "Error initializing decryption"))
decryption not_decrypted = throw (runtime_error (codes "Error decrypting data"))
decryption not_finalized = throw (runtime_error (codes "Error finalizing decryption"))

unfoldable pub unprotect_symetric : OpenSsl → Bytes → Bytes → Result Bytes
unprotect_symetric o to_decrypt key =
    if ltb (length to_decrypt) block_size
    then throw (runtime_error (codes "Error: Encrypted data too short"))
    else if is_supported (length key)
    then decryption (o.decrypt key (take block_size to_decrypt) (drop block_size to_decrypt))
    else throw (runtime_error unsupported)

unfoldable pub protect_asymetric : OpenSsl → Bytes → Bytes → Bytes
unfolding load_key perform_rsa_operation
protect_asymetric o to_encrypt key = elim (load_key o key false) [
  | none ↦ []
  | some pkey ↦ perform_rsa_operation o to_encrypt pkey true
]

unfoldable pub unprotect_asymetric : OpenSsl → Bytes → Bytes → Bytes
unfolding load_key perform_rsa_operation
unprotect_asymetric o to_decrypt key = elim (load_key o key true) [
  | none ↦ []
  | some pkey ↦ perform_rsa_operation o to_decrypt pkey false
]

-- The arguments of a command line, the first of them the command.
unfoldable pub validate_args : List Bytes → Bool
unfolding str_eq
validate_args [] = false
validate_args (command ∷ args) =
    if str_eq command (codes "help")
    then true
    else if str_eq command (codes "protect") || str_eq command (codes "unprotect")
    then not (ltb (length (command ∷ args)) 4)
    else if str_eq command (codes "check")
    then not (ltb (length (command ∷ args)) 2)
    else false
