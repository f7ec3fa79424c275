-- ===== src/Tests/Messages.antt =====
-- The text forms at concrete messages.
use ticket_ist.Prelude.{ℕ, ◌≡◌, refl, codes, arith, ok, length, is_empty, ◌<◌, ◌++◌}
use ticket_ist.Prelude.Int.{pos, negsuc}
use ticket_ist.Floats.{whole_prices, whole_prices_laws}
use ticket_ist.Text.Decimal.{print_ℤ, stoi, stoi-print}
use ticket_ist.Text.Decimal
use ticket_ist.Ticket.{Ticket}
use ticket_ist.Ticket.Format
use ticket_ist.Ticket.Format.{IsPrintable}
use ticket_ist.Ticket.Code.{generate_validation_code, generate_validation_code_lem, IsAlphanumeric}
use ticket_ist.Message.Authenticated.{AuthenticatedMessage}
use ticket_ist.Message.AcceptAuth
use ticket_ist.Message.AcceptAuth.{AcceptAuthMessage}
use ticket_ist.Message.CheckIntegrity.{CheckIntegrityMessage}
use ticket_ist.Message.GetAvailableTickets.{GetAvailableTicketsMessage}
use ticket_ist.Tests.Shop.{draw}

abbrev signed : AuthenticatedMessage
signed = record { username = codes "ana"; session_cookies = codes "COOKIE_x"; nonce = pos 43 }

abbrev reply : AcceptAuthMessage
reply = record { base = signed; message = codes "a:b" }

deserialize-serialize_accept_auth_example :
    AcceptAuth.deserialize (AcceptAuth.serialize reply) ≡ ok reply
unfolding is_empty
deserialize-serialize_accept_auth_example =
    AcceptAuth.deserialize-serialize_accept_auth reply (omega arith) (omega arith) (omega arith)
      refl

abbrev check : CheckIntegrityMessage
check = record { base = signed; val_code = codes "DEFG"; integrity_code = codes "01234bcdef" }

abbrev ask : GetAvailableTicketsMessage
ask = record { base = signed; event_name = codes "Gala" }

abbrev ticket : Ticket ℕ
ticket = record {
  ticket_id = pos 7;
  event_id = pos 1;
  seller_id = pos 1;
  buyer_id = negsuc 0;
  price = 20;
  seat = codes "11C";
  validation_code = codes "DEFG";
  purchase_date = codes "2024-5-3 9:30:0";
}

ticket-IsPrintable : IsPrintable ticket
ticket-IsPrintable = record {
  ticket_id_fits = omega arith;
  event_id_fits = omega arith;
  seller_id_fits = omega arith;
  buyer_id_fits = omega arith;
  date_lacks = omega arith;
  seat_lacks = omega arith;
  code_lacks = omega arith;
}

deserialize-serialize_ticket_example :
    (y : ℕ) × (Format.deserialize whole_prices (Format.serialize whole_prices ticket)
      ≡ ok (record ticket { price = y }))
    × (print_ℤ (pos y) ≡ print_ℤ (pos 20))
deserialize-serialize_ticket_example =
    Format.deserialize-serialize_ticket whole_prices whole_prices_laws ticket ticket-IsPrintable

stoi-print_example : stoi (print_ℤ (negsuc 2147483647) ++ codes "|x") ≡ ok (negsuc 2147483647)
unfolding Decimal.starts_digit
stoi-print_example = stoi-print (negsuc 2147483647) (codes "|x") (omega arith) refl

draw_fits : (i : ℕ) → draw i < 62
draw_fits i = omega arith

generate_validation_code_example :
    (length (generate_validation_code draw 10) ≡ 10)
    × IsAlphanumeric (generate_validation_code draw 10)
generate_validation_code_example = generate_validation_code_lem draw 10 draw_fits
