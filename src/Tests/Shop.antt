-- ===== src/Tests/Shop.antt =====
-- A shop with one event and a ticket that the user 2 bought and put on sale, and one of the
-- organiser.
use ticket_ist.Prelude.{ℕ, ◌+◌, ◌%◌, false, [], ◌∷◌, Bytes, codes}
use ticket_ist.Prelude.Int.{pos}
use ticket_ist.Platform.{compute_sha256}
use ticket_ist.Ticket.{TicketInfo, Tm}
use ticket_ist.Database.Schema.{ResellRow, Tables, TicketRow}
use ticket_ist.Service.Tickets.{TicketService}
use ticket_ist.Controller.State.{Inputs}
use ticket_ist.Tests.Server.{local}

abbrev pub resold_info : TicketInfo ℕ
resold_info = record {
  ticket_id = pos 7;
  event_id = pos 1;
  seller_id = pos 2;
  price = 20;
  seat = codes "11C";
}

abbrev pub first_info : TicketInfo ℕ
first_info = record {
  ticket_id = pos 8;
  event_id = pos 1;
  seller_id = pos 1;
  price = 30;
  seat = codes "5A";
}

abbrev pub old_code : Bytes
old_code = codes "oldCode123"

abbrev pub old_row : TicketRow
old_row = record {
  validation_code = compute_sha256 local old_code;
  ticket_hash = codes "0123456789abcdef";
  info = codes "11C";
  used = false;
  owner_id = pos 2;
}

abbrev pub old_resale : ResellRow
old_resale = record { hash_val_code = compute_sha256 local old_code; ticket_id = pos 7 }

abbrev pub tables : Tables ℕ
tables = record {
  events = record { id = pos 1; name = codes "Gala" } ∷ [];
  ticket_info = resold_info ∷ first_info ∷ [];
  ticket = old_row ∷ [];
  resell_tickets = old_resale ∷ [];
  users =
      record {
        id = pos 2;
        username = codes "ana";
        is_validator = false;
        password = compute_sha256 local (codes "pw");
      }
      ∷ [];
  validators = [];
  next_event = pos 2;
  next_ticket_info = pos 9;
  next_user = pos 3;
}

abbrev pub service : TicketService local
service = record { conn = tables; tickets_info_cache = [] }

abbrev pub now : Tm
now = record {
  tm_year = pos 124;
  tm_mon = pos 4;
  tm_mday = pos 3;
  tm_hour = pos 9;
  tm_min = pos 30;
  tm_sec = pos 0;
}

abbrev pub draw : ℕ → ℕ
draw i = (i + 3) % 62

abbrev pub inputs : Inputs
inputs = record { now = now; new_nonce = pos 41; cookie_draw = draw; code_draw = draw }
