-- ===== src/Platform.antt =====
-- What the program runs on and does not implement: floating-point numbers, the database server
-- and its connector, and OpenSSL's SHA-256.
use ticket_ist.Prelude.{
  ℕ, ◌+◌, ◌-◌, ◌/◌, ◌%◌, ◌≡◌, refl, [], ◌∷◌, Bytes, length, arith, ltb, if◌then◌else◌,
}
use ticket_ist.Floats.{Floats}
use ticket_ist.Database.{Sql}

pub record Platform : Type 1 where
  pub floats : Floats
  pub open floats use *
  pub sql : Sql floats.Price
  pub open sql use *
  -- the 32 bytes that the EVP digest functions compute
  pub digest : Bytes → Bytes

-- `ss << std::hex << std::setw(2) << std::setfill('0') << byte`
unfoldable pub hex_digit : ℕ → ℕ
hex_digit d = if ltb d 10 then b'0' + d else b'a' + (d - 10)

unfoldable pub hex : Bytes → Bytes
unfolding hex_digit
hex [] = []
hex (b ∷ s) = hex_digit (b / 16) ∷ hex_digit (b % 16) ∷ hex s

-- `CryptographicLibrary::computeSHA256`, common/src/Crypto/CryptographicLibrary.cpp
unfoldable pub compute_sha256 : Platform → Bytes → Bytes
unfolding hex
compute_sha256 p s = hex (p.digest s)

-- Two hexadecimal digits for each byte.
pub length-hex : (s : Bytes) → length (hex s) ≡ length s + length s
unfolding hex
length-hex [] = refl
length-hex (b ∷ s) = omega (arith, length-hex s)
