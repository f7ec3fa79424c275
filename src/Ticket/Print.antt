-- ===== src/Ticket/Print.antt =====
-- `Ticket::printTicket`, common/src/Ticket/Ticket.cpp: the lines of a table; and the line of
-- `TicketInfo::displayTicketInfo`, common/src/Ticket/TicketInfo.cpp.
use ticket_ist.Prelude.{ℕ, zero, suc, ◌-◌, List, [], ◌∷◌, ◌++◌, Bytes, codes, length}
use ticket_ist.Floats.{Floats}
use ticket_ist.Text.Decimal.{print_ℤ}
use ticket_ist.Ticket.{Ticket, TicketInfo}

repeat : ℕ → ℕ → Bytes
repeat zero c = []
repeat (suc n) c = c ∷ repeat n c

-- `std::setw(w) << std::left`, which fills to the right
left : ℕ → Bytes → Bytes
unfolding repeat
left w s = s ++ repeat (w - length s) b' '

separator : Bytes
unfolding repeat
separator = b'+' ∷ repeat 22 b'-' ++ b'+' ∷ repeat 32 b'-' ++ b'+' ∷ []

table_row : Bytes → Bytes → Bytes
unfolding left
table_row field value = codes "| " ++ left 20 field ++ codes " | " ++ left 30 value ++ codes " |"

unfoldable pub print_ticket : (F : Floats) → Ticket F.Price → List Bytes
unfolding table_row separator
print_ticket F t =
    separator
    ∷ table_row (codes "Field") (codes "Value")
    ∷ separator
    ∷ table_row (codes "Ticket ID") (print_ℤ t.ticket_id)
    ∷ table_row (codes "Event ID") (print_ℤ t.event_id)
    ∷ table_row (codes "Seller ID") (print_ℤ t.seller_id)
    ∷ table_row (codes "Buyer ID") (print_ℤ t.buyer_id)
    ∷ table_row (codes "Purchase Date") t.purchase_date
    ∷ table_row (codes "Price") (F.print_fixed t.price)
    ∷ table_row (codes "Seat") t.seat
    ∷ table_row (codes "Validation Code") t.validation_code
    ∷ separator
    ∷ []

unfoldable pub display_ticket_info : (F : Floats) → TicketInfo F.Price → Bytes
display_ticket_info F i =
    codes "Ticket ID: "
    ++ print_ℤ i.ticket_id
    ++ codes " | "
    ++ codes "Event ID: "
    ++ print_ℤ i.event_id
    ++ codes " | "
    ++ codes "Seller ID: "
    ++ print_ℤ i.seller_id
    ++ codes " | "
    ++ codes "Price: "
    ++ F.print i.price
    ++ codes " | "
    ++ codes "Seat: "
    ++ i.seat
