-- ===== src/Message/CheckIntegrity.antt =====
-- `class CheckIntegrityMessage`, common/src/Message/CheckIntegrityMessage.cpp.
use ticket_ist.Prelude.{◌≡◌, refl, arith, Bytes, Result, ok, ◌>>=◌, ◌>>◌}
use ticket_ist.Text.Decimal.{print_ℤ, stol, stol-print_all, IsLong}
use ticket_ist.Message.Action.{check_integrity}
use ticket_ist.Message.Wire.{
  ◌:-◌, tag, bad_format, mismatch, read_field, read_last, read_header, check_action, IsField,
  IsLast, print_ℤ-IsField, read_field-append, read_last_lem, read_header-append, check_action-tag,
}
use ticket_ist.Message.Authenticated.{AuthenticatedMessage}

pub record CheckIntegrityMessage : Type 0 where
  pub base : AuthenticatedMessage
  pub open base use *
  pub val_code : Bytes
  pub integrity_code : Bytes

unfoldable pub serialize : CheckIntegrityMessage → Bytes
serialize m =
    tag check_integrity
    :- m.username
    :- m.session_cookies
    :- print_ℤ m.nonce
    :- m.val_code
    :- m.integrity_code

-- All fields are read before the action is checked and the numbers are converted.
unfoldable pub deserialize : Bytes → Result CheckIntegrityMessage
deserialize data_ = do
  h ← read_header bad_format data_
  (val_code, s) ← read_field bad_format h.rest
  integrity_code ← read_last bad_format s
  check_action check_integrity mismatch h.action
  nonce ← stol h.nonce
  ok (record {
    base = record { username = h.username; session_cookies = h.cookie; nonce = nonce };
    val_code = val_code;
    integrity_code = integrity_code;
  })

-- A message is read back if its user name and cookie hold no colon, its nonce is a `long`, and its
-- validation code holds no colon either, and its integrity code is a line that is not empty.
pub deserialize-serialize_check_integrity :
    (m : CheckIntegrityMessage)
    → IsField m.username
    → IsField m.session_cookies
    → IsLong m.nonce
    → IsField m.val_code
    → IsLast m.integrity_code
    → deserialize (serialize m) ≡ ok m
unfolding deserialize serialize
deserialize-serialize_check_integrity m hu hc hn hv hl =
    rw
      (read_header-append bad_format (tag check_integrity) m.username m.session_cookies m.nonce
        (m.val_code :- m.integrity_code) (print_ℤ-IsField _) hu hc)
      (rw (read_field-append bad_format m.val_code m.integrity_code hv) (
        rw (read_last_lem bad_format m.integrity_code hl) (
          rw (check_action-tag check_integrity mismatch (omega arith))
            (rw (stol-print_all m.nonce hn) refl))))
