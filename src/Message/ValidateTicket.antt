-- ===== src/Message/ValidateTicket.antt =====
-- `class ValidateTicketMessage`, common/src/Message/ValidateTicketMessage.cpp.
use ticket_ist.Prelude.{◌≡◌, refl, arith, Bytes, Result, ok, ◌>>=◌, ◌>>◌}
use ticket_ist.Text.Decimal.{print_ℤ, stol, stol-print_all, IsLong}
use ticket_ist.Message.Action.{validate_ticket}
use ticket_ist.Message.Wire.{
  ◌:-◌, tag, bad_format, mismatch, read_last, read_header, check_action, IsField, IsLast,
  print_ℤ-IsField, read_last_lem, read_header-append, check_action-tag,
}
use ticket_ist.Message.Authenticated.{AuthenticatedMessage}

pub record ValidateTicketMessage : Type 0 where
  pub base : AuthenticatedMessage
  pub open base use *
  pub val_code : Bytes

unfoldable pub serialize : ValidateTicketMessage → Bytes
serialize m =
    tag validate_ticket :- m.username :- m.session_cookies :- print_ℤ m.nonce :- m.val_code

-- All fields are read before the action is checked and the numbers are converted.
unfoldable pub deserialize : Bytes → Result ValidateTicketMessage
deserialize data_ = do
  h ← read_header bad_format data_
  val_code ← read_last bad_format h.rest
  check_action validate_ticket mismatch h.action
  nonce ← stol h.nonce
  ok (record {
    base = record { username = h.username; session_cookies = h.cookie; nonce = nonce };
    val_code = val_code;
  })

-- A message is read back if its user name and cookie hold no colon, its nonce is a `long`, and its
-- validation code is a line that is not empty.
pub deserialize-serialize_validate_ticket :
    (m : ValidateTicketMessage)
    → IsField m.username
    → IsField m.session_cookies
    → IsLong m.nonce
    → IsLast m.val_code
    → deserialize (serialize m) ≡ ok m
unfolding deserialize serialize
deserialize-serialize_validate_ticket m hu hc hn hl =
    rw
      (read_header-append bad_format (tag validate_ticket) m.username m.session_cookies m.nonce
        m.val_code (print_ℤ-IsField _) hu hc)
      (rw (read_last_lem bad_format m.val_code hl) (
        rw (check_action-tag validate_ticket mismatch (omega arith))
          (rw (stol-print_all m.nonce hn) refl)))
