-- ===== src/Message/GetAvailableTickets.antt =====
-- `class GetAvailableTicketsMessage`, common/src/Message/GetAvailableTicketsMessage.cpp.
use ticket_ist.Prelude.{
  ◌≡◌, refl, arith, Bytes, codes, Result, ok, throw, Exception, invalid_argument, ◌>>=◌, ◌>>◌,
}
use ticket_ist.Text.Decimal.{print_ℤ, stol, stol-print_all, IsLong}
use ticket_ist.Message.Action.{get_available_tickets}
use ticket_ist.Message.Wire.{
  ◌:-◌, tag, mismatch, read_last, read_header, check_action, IsField, IsLast, print_ℤ-IsField,
  read_last_lem, read_header-append, check_action-tag,
}
use ticket_ist.Message.Authenticated.{AuthenticatedMessage}

pub record GetAvailableTicketsMessage : Type 0 where
  pub base : AuthenticatedMessage
  pub open base use *
  pub event_name : Bytes

unfoldable pub serialize : GetAvailableTicketsMessage → Bytes
serialize m =
    tag get_available_tickets :- m.username :- m.session_cookies :- print_ℤ m.nonce :- m.event_name

abbrev missing_fields : Exception
missing_fields = invalid_argument (codes "Error: Invalid message format! Missing fields.")

abbrev bad_nonce : Exception
bad_nonce = invalid_argument (codes "Error: Invalid nonce format!")

-- Any exception of the conversion is turned into one of this class.
recast : {A : Type 0} → Result A → Result A
recast (ok a) = ok a
recast (throw e) = throw bad_nonce

-- All fields are read before the action is checked and the numbers are converted.
unfoldable pub deserialize : Bytes → Result GetAvailableTicketsMessage
unfolding recast
deserialize data_ = do
  h ← read_header missing_fields data_
  event_name ← read_last missing_fields h.rest
  check_action get_available_tickets mismatch h.action
  nonce ← recast (stol h.nonce)
  ok (record {
    base = record { username = h.username; session_cookies = h.cookie; nonce = nonce };
    event_name = event_name;
  })

-- A message is read back if its user name and cookie hold no colon, its nonce is a `long`, and its
-- event name is a line that is not empty.
pub deserialize-serialize_listing :
    (m : GetAvailableTicketsMessage)
    → IsField m.username
    → IsField m.session_cookies
    → IsLong m.nonce
    → IsLast m.event_name
    → deserialize (serialize m) ≡ ok m
unfolding deserialize serialize
deserialize-serialize_listing m hu hc hn hl =
    rw
      (read_header-append missing_fields (tag get_available_tickets) m.username m.session_cookies
        m.nonce m.event_name (print_ℤ-IsField _) hu hc)
      (rw (read_last_lem missing_fields m.event_name hl) (
        rw (check_action-tag get_available_tickets mismatch (omega arith))
          (rw (stol-print_all m.nonce hn) refl)))
