-- ===== src/Ticket.antt =====
-- `class Ticket` and `class TicketInfo`, common/src/Ticket. A ticket is what a buyer owns, and
-- ticket information is what the shop lists. The static counter `nextID` is used only by a
-- constructor that nothing calls.
pub mod Format
pub mod Code
pub mod Print
use ticket_ist.Prelude.{◌+◌, ◌∷◌, ◌++◌, Bytes, ◌-◌}
use ticket_ist.Prelude.Int.{ℤ, pos, ◌+ℤ◌}
use ticket_ist.Text.Decimal.{print_ℤ}

pub record Ticket (Price : Type 0) : Type 0 where
  pub ticket_id : ℤ
  pub event_id : ℤ
  pub seller_id : ℤ
  pub buyer_id : ℤ
  pub price : Price
  pub seat : Bytes
  pub validation_code : Bytes
  pub purchase_date : Bytes

pub record TicketInfo (Price : Type 0) : Type 0 where
  pub ticket_id : ℤ
  pub event_id : ℤ
  pub seller_id : ℤ
  pub price : Price
  pub seat : Bytes

-- The fields of `std::tm` that the purchase date is made of.
pub record Tm : Type 0 where
  pub tm_year : ℤ
  pub tm_mon : ℤ
  pub tm_mday : ℤ
  pub tm_hour : ℤ
  pub tm_min : ℤ
  pub tm_sec : ℤ

unfoldable pub format_date : Tm → Bytes
unfolding ◌+ℤ◌
format_date t =
    print_ℤ (pos 1900 +ℤ t.tm_year)
    ++ b'-' ∷ print_ℤ (pos 1 +ℤ t.tm_mon)
    ++ b'-' ∷ print_ℤ t.tm_mday
    ++ b' ' ∷ print_ℤ t.tm_hour
    ++ b':' ∷ print_ℤ t.tm_min
    ++ b':' ∷ print_ℤ t.tm_sec

-- `Ticket::changeOwnership`
unfoldable pub change_ownership : {Price : Type 0} → ℤ → Ticket Price → Ticket Price
change_ownership b t = record t { seller_id = t.buyer_id; buyer_id = b }
