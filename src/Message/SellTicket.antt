-- ===== src/Message/SellTicket.antt =====
-- `class SellTicketMessage`, common/src/Message/SellTicketMessage.cpp.
use ticket_ist.Prelude.{
  ◌≡◌, refl, arith, Bytes, codes, Result, ok, Exception, invalid_argument, ◌>>=◌, ◌>>◌,
}
use ticket_ist.Text.Decimal.{print_ℤ, stol, stol-print_all, IsLong}
use ticket_ist.Message.Action.{sell_ticket}
use ticket_ist.Message.Wire.{
  ◌:-◌, tag, bad_format, read_field, read_last, read_header, check_action, IsField, IsLast,
  print_ℤ-IsField, read_field-append, read_last_lem, read_header-append, check_action-tag,
}
use ticket_ist.Message.Authenticated.{AuthenticatedMessage}
use ticket_ist.Floats.{Floats, FloatLaws}

pub record SellTicketMessage (Price : Type 0) : Type 0 where
  pub base : AuthenticatedMessage
  pub open base use *
  pub serialized_ticket : Bytes
  pub new_price : Price

abbrev not_sell_ticket : Exception
not_sell_ticket = invalid_argument (codes "Error: Not a valid SellTicketMessage!")

module _ (F : Floats) where
  unfoldable pub serialize : SellTicketMessage F.Price → Bytes
  serialize m =
      tag sell_ticket
      :- m.username
      :- m.session_cookies
      :- print_ℤ m.nonce
      :- F.print m.new_price
      :- m.serialized_ticket

  unfoldable pub deserialize : Bytes → Result (SellTicketMessage F.Price)
  deserialize data_ = do
    h ← read_header bad_format data_
    (price_str, s) ← read_field bad_format h.rest
    ticket ← read_last bad_format s
    check_action sell_ticket not_sell_ticket h.action
    nonce ← stol h.nonce
    new_price ← F.stod price_str
    ok (record {
      base = record { username = h.username; session_cookies = h.cookie; nonce = nonce };
      serialized_ticket = ticket;
      new_price = new_price;
    })

  -- If a printed price has no separator and is read as one that prints alike, a message is read
  -- back, all but its price, which prints alike; its user name and cookie hold no colon, its nonce
  -- is a `long`, and its ticket is a line that is not empty.
  pub deserialize-serialize_sell_ticket :
      FloatLaws F
      → (m : SellTicketMessage F.Price) → IsField m.username
      → IsField m.session_cookies
      → IsLong m.nonce
      → IsLast m.serialized_ticket
      → (y : F.Price) × (deserialize (serialize m) ≡ ok (record m { new_price = y }))
        × (F.print y ≡ F.print m.new_price)
  unfolding deserialize serialize
  deserialize-serialize_sell_ticket laws m hu hc hn hl =
      let (y, reads, prints) = laws.print_stable m.new_price in
      (
        y,
        rw
            (read_header-append bad_format (tag sell_ticket) m.username m.session_cookies m.nonce
              (F.print m.new_price :- m.serialized_ticket) (print_ℤ-IsField _) hu hc)
            (rw
              (read_field-append bad_format (F.print m.new_price) m.serialized_ticket
                (laws.lacks_colon m.new_price))
              (rw (read_last_lem bad_format m.serialized_ticket hl) (
                rw (check_action-tag sell_ticket not_sell_ticket (omega arith))
                  (rw (stol-print_all m.nonce hn) (rw reads refl))))),
        prints,
      )
