-- ===== src/Message/Authenticated.antt =====
-- `class AuthenticatedMessage`, common/src/Message/AuthenticatedMessage.cpp: the base class, and what
-- a client reads of a reply before it looks at the message in it. The `action` of the base class
-- `Message` is fixed by each class's constructor, so the records have no field for it.
use ticket_ist.Prelude.{◌≡◌, refl, [], ◌∷◌, ◌++◌, arith, Bytes, Result, ok, ◌>>=◌}
use ticket_ist.Prelude.Int.{ℤ}
use ticket_ist.Text.Decimal.{
  print_ℤ, print_ℤ-Lacks, print_ℤ-ne-nil, stol, stol-print, IsLong, starts_digit,
}
use ticket_ist.Message.Wire.{◌:-◌, bad_format, read_field, read_last}
use ticket_ist.Text.Stream.{get_line-prefix, first_line}

pub record AuthenticatedMessage : Type 0 where
  pub username : Bytes
  pub session_cookies : Bytes
  pub nonce : ℤ

unfoldable pub serialize : AuthenticatedMessage → Bytes
serialize m = m.username :- m.session_cookies :- print_ℤ m.nonce :- []

-- The nonce is what `std::stol` converts of the rest of the line; the action is not looked at.
unfoldable pub deserialize : Bytes → Result AuthenticatedMessage
deserialize data_ = do
  (action, s1) ← read_field bad_format data_
  (username, s2) ← read_field bad_format s1
  (cookie, s3) ← read_field bad_format s2
  nonce_str ← read_last bad_format s3
  nonce ← stol nonce_str
  ok (record { username = username; session_cookies = cookie; nonce = nonce })

-- The number in front of a colon is what the rest of the line is read as.
pub read_last-number :
    (n : ℤ) (s : Bytes)
    → IsLong n
    → (line : Bytes) × (read_last bad_format (print_ℤ n :- s) ≡ ok line) × (stol line ≡ ok n)
unfolding read_last
read_last-number n s h =
    let lacks = print_ℤ-Lacks 10 (omega arith) refl n in
    let (rest, reads) = get_line-prefix 10 (print_ℤ n) (b':' ∷ s) (print_ℤ-ne-nil n) lacks in
    (
      print_ℤ n ++ first_line 10 (b':' ∷ s),
      rw reads refl,
      stol-print n (first_line 10 (b':' ∷ s)) h (unfold first_line starts_digit in ground arith),
    )
