-- ===== src/Message/LogOut.antt =====
-- `class LogOutMessage`, common/src/Message/LogOutMessage.cpp. It adds nothing to its base class.
use ticket_ist.Prelude.{
  ◌≡◌, refl, arith, Bytes, codes, Result, ok, Exception, invalid_argument, ◌>>=◌, ◌>>◌,
}
use ticket_ist.Text.Decimal.{print_ℤ, print_ℤ-Lacks, print_ℤ-ne-nil, stol, stol-print_all, IsLong}
use ticket_ist.Message.Action.{log_out}
use ticket_ist.Message.Wire.{
  ◌:-◌, tag, bad_format, read_field, read_last, check_action, IsField, print_ℤ-IsField,
  read_field-append, read_last_lem, check_action-tag,
}
use ticket_ist.Message.Authenticated.{AuthenticatedMessage}

abbrev pub LogOutMessage : Type 0
LogOutMessage = AuthenticatedMessage

unfoldable pub serialize : LogOutMessage → Bytes
serialize m = tag log_out :- m.username :- m.session_cookies :- print_ℤ m.nonce

abbrev not_log_out : Exception
not_log_out = invalid_argument (codes "Error: Not a valid LogOutMessage!")

-- The nonce is the rest of the line.
unfoldable pub deserialize : Bytes → Result LogOutMessage
deserialize data_ = do
  (action, s1) ← read_field bad_format data_
  (username, s2) ← read_field bad_format s1
  (cookie, s3) ← read_field bad_format s2
  nonce_str ← read_last bad_format s3
  check_action log_out not_log_out action
  nonce ← stol nonce_str
  ok (record { username = username; session_cookies = cookie; nonce = nonce })

-- A message whose user name and cookie hold no colon and whose nonce is a `long` is read back.
pub deserialize-serialize_log_out :
    (m : LogOutMessage)
    → IsField m.username
    → IsField m.session_cookies
    → IsLong m.nonce
    → deserialize (serialize m) ≡ ok m
unfolding deserialize serialize
deserialize-serialize_log_out m hu hc hn =
    rw (read_field-append bad_format (tag log_out) _ (print_ℤ-IsField _)) (
      rw (read_field-append bad_format m.username _ hu) (
        rw (read_field-append bad_format m.session_cookies _ hc) (
          rw
            (read_last_lem bad_format (print_ℤ m.nonce)
              (print_ℤ-ne-nil m.nonce, print_ℤ-Lacks 10 (omega arith) refl m.nonce))
            (rw (check_action-tag log_out not_log_out (omega arith))
              (rw (stol-print_all m.nonce hn) refl)))))
