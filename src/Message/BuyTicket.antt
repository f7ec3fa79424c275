-- ===== src/Message/BuyTicket.antt =====
-- `class BuyTicketMessage`, common/src/Message/BuyTicketMessage.cpp.
use ticket_ist.Prelude.{◌≡◌, refl, arith, Bytes, Result, ok, ◌>>=◌, ◌>>◌}
use ticket_ist.Prelude.Int.{ℤ}
use ticket_ist.Text.Decimal.{print_ℤ, stoi, stol, stoi-print_all, stol-print_all, IsInt, IsLong}
use ticket_ist.Message.Action.{buy_ticket}
use ticket_ist.Message.Wire.{
  ◌:-◌, tag, bad_format, mismatch, read_field, read_last, read_header, check_action, IsField,
  IsLast, print_ℤ-IsField, read_field-append, read_last_lem, read_header-append, check_action-tag,
}
use ticket_ist.Message.Authenticated.{AuthenticatedMessage}

pub record BuyTicketMessage : Type 0 where
  pub base : AuthenticatedMessage
  pub open base use *
  pub ticket_id : ℤ
  pub event_name : Bytes

unfoldable pub serialize : BuyTicketMessage → Bytes
serialize m =
    tag buy_ticket
    :- m.username
    :- m.session_cookies
    :- print_ℤ m.nonce
    :- print_ℤ m.ticket_id
    :- m.event_name

-- All fields are read before the action is checked and the numbers are converted.
unfoldable pub deserialize : Bytes → Result BuyTicketMessage
deserialize data_ = do
  h ← read_header bad_format data_
  (id_str, s) ← read_field bad_format h.rest
  event_name ← read_last bad_format s
  check_action buy_ticket mismatch h.action
  nonce ← stol h.nonce
  ticket_id ← stoi id_str
  ok (record {
    base = record { username = h.username; session_cookies = h.cookie; nonce = nonce };
    ticket_id = ticket_id;
    event_name = event_name;
  })

-- A message is read back if its user name and cookie hold no colon, its nonce is a `long`, and its
-- ticket id an `int`, and its event name is a line that is not empty.
pub deserialize-serialize_buy_ticket :
    (m : BuyTicketMessage)
    → IsField m.username
    → IsField m.session_cookies
    → IsLong m.nonce
    → IsInt m.ticket_id
    → IsLast m.event_name
    → deserialize (serialize m) ≡ ok m
unfolding deserialize serialize
deserialize-serialize_buy_ticket m hu hc hn hi hl =
    rw
      (read_header-append bad_format (tag buy_ticket) m.username m.session_cookies m.nonce
        (print_ℤ m.ticket_id :- m.event_name) (print_ℤ-IsField _) hu hc)
      (rw (read_field-append bad_format (print_ℤ m.ticket_id) m.event_name (print_ℤ-IsField _)) (
        rw (read_last_lem bad_format m.event_name hl) (
          rw (check_action-tag buy_ticket mismatch (omega arith))
            (rw (stol-print_all m.nonce hn) (rw (stoi-print_all m.ticket_id hi) refl)))))
