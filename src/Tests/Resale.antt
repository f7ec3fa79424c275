-- ===== src/Tests/Resale.antt =====
-- A sale at a shop whose only ticket is the one that is sold.
use ticket_ist.Prelude.{
  ℕ, ◌<◌, ◌≡◌, arith, none, some, refl, true, false, [], ◌∷◌, Bytes, codes, ok, str_eq,
}
use ticket_ist.Prelude.Int.{pos, ◌==ℤ◌, ◌+ℤ◌}
use ticket_ist.Text.Decimal
use ticket_ist.Text.Stream
use ticket_ist.Floats
use ticket_ist.Platform.{compute_sha256}
use ticket_ist.Ticket.{Ticket}
use ticket_ist.Ticket.Format
use ticket_ist.Database.{first_row, run_select, run_update}
use ticket_ist.Database.Schema
use ticket_ist.Database.Schema.{Tables}
use ticket_ist.Repository.Tickets
use ticket_ist.Repository.Events.{Event}
use ticket_ist.Repository.Events
use ticket_ist.Service.Events.{EventService, get_event_by_name}
use ticket_ist.Service.Events.Cache.{get_event_by_name_again}
use ticket_ist.Service.Tickets.{
  TicketService, buy_ticket, validate_ticket, sell_ticket, unknown_code,
}
use ticket_ist.Service.Tickets.Resale.{relisted, IsSold, sell_ticket-IsSold}
use mathlib.Core.Option.{some_inj}
use ticket_ist.Ticket.Code.{generate_validation_code}
use ticket_ist.Service.Tickets.Purchase.{code, bought}
use ticket_ist.Service.Tickets.Lifecycle.{IsFresh}
use ticket_ist.Service.Tickets.Transfer.{buy_ticket-sell_ticket}
use ticket_ist.Tests.Server.{local, memory-SqlLaws, memory-IsReliable}
use ticket_ist.Tests.Shop.{now, draw}
use ticket_ist.Tests.Shop

abbrev ticket : Ticket ℕ
ticket = record {
  ticket_id = pos 7;
  event_id = pos 1;
  seller_id = pos 1;
  buyer_id = pos 3;
  price = 20;
  seat = codes "11C";
  validation_code = codes "DEFG";
  purchase_date = codes "2024-5-3";
}

abbrev text : Bytes
text = codes "7|1|1|3|2024-5-3|20|11C|DEFG"

abbrev tables : Tables ℕ
tables = record Shop.tables {
  ticket_info = [];
  resell_tickets = [];
  ticket =
      record {
        validation_code = compute_sha256 local (codes "DEFG");
        ticket_hash = compute_sha256 local text;
        info = codes "11C";
        used = false;
        owner_id = pos 3;
      }
      ∷ [];
}

abbrev service : TicketService local
service = record { conn = tables; tickets_info_cache = [] }

text-ticket : Format.serialize local.floats ticket ≡ text
unfolding Format.serialize Decimal.print_ℤ
text-ticket = refl

reads : Format.deserialize local.floats text ≡ ok ticket
unfolding Format.deserialize Stream.get_line_into Decimal.stoi Floats.read_whole
reads = refl

sold : (sell_ticket local text 15 service).0 ≡ ok true
unfolding sell_ticket Tickets.get_ticket_hash_by_validation_code Tickets.add_ticket_info
    Tickets.add_ticket_to_resell run_select run_update Schema.select_ticket Schema.insert_info
    Schema.insert_resell str_eq compute_sha256 Schema.any_row
sold = rw (reads, text-ticket) refl

sell_ticket-IsSold_example :
    IsSold local ticket 15 tables (sell_ticket local text 15 service).1.conn
sell_ticket-IsSold_example =
    sell_ticket-IsSold local ticket 15 memory-SqlLaws text service reads sold

-- The tables behind the sale.
abbrev sold_tables : Tables ℕ
sold_tables = record tables {
  ticket_info = relisted local ticket 15 ∷ [];
  resell_tickets =
      record { hash_val_code = compute_sha256 local (codes "DEFG"); ticket_id = pos 7 } ∷ [];
}

leaves : (sell_ticket local text 15 service).1.conn ≡ sold_tables
unfolding sell_ticket Tickets.get_ticket_hash_by_validation_code Tickets.add_ticket_info
    Tickets.add_ticket_to_resell run_select run_update Schema.select_ticket Schema.insert_info
    Schema.insert_resell str_eq compute_sha256 Schema.any_row ◌+ℤ◌
leaves = rw (reads, text-ticket) refl

own : (ticket.ticket_id ==ℤ pos 0) ≡ false
own = refl

unsold : first_row (some (Schema.select_resell (pos 7) tables)) ≡ none
unfolding Schema.select_resell
unsold = refl

few : Schema.count_owned (pos 4) (sell_ticket local text 15 service).1.conn < 6
unfolding Schema.count_owned
few = rw leaves (omega arith)

sold_tables-IsFresh : IsFresh local now draw (pos 7) (pos 1) (pos 4) (pos 7) sold_tables
unfolding Schema.any_row generate_validation_code compute_sha256 str_eq Schema.select_resell
sold_tables-IsFresh = record {
  no_ticket = refl;
  no_resale = λ r h. let e = some_inj.0 h in rw (← e) refl;
}

fresh :
    IsFresh local now draw
      (pos 7)
      (pos 1)
      (pos 4)
      (pos 7)
      (sell_ticket local text 15 service).1.conn
fresh = rw leaves sold_tables-IsFresh

buy_ticket-sell_ticket_example :
    ((buy_ticket local now draw (pos 7) (pos 1) (pos 4) (sell_ticket local text 15 service).1).0
      ≡ ok (bought local now draw (pos 7) (pos 1) (pos 4) (relisted local ticket 15)))
    × ((validate_ticket local
          (code local now draw (pos 7) (pos 1) (pos 4))
          (buy_ticket local now draw
            (pos 7)
            (pos 1)
            (pos 4)
            (sell_ticket local text 15 service).1).1).0
        ≡ ok (true, codes "11C"))
    × ((validate_ticket local
          (codes "DEFG")
          (buy_ticket local now draw
            (pos 7)
            (pos 1)
            (pos 4)
            (sell_ticket local text 15 service).1).1).0
        ≡ ok (false, unknown_code))
buy_ticket-sell_ticket_example =
    buy_ticket-sell_ticket local now draw (pos 4) ticket 15 memory-IsReliable text service reads own
      unsold sold few fresh

abbrev gala : Event
gala = record { id = pos 1; name = codes "Gala" }

abbrev events : EventService local
events = record { conn = Shop.tables; event_cache = [] }

known : (get_event_by_name local (codes "Gala") events).0 ≡ ok gala
unfolding get_event_by_name Events.get_event_by_name run_select Schema.select_event str_eq
known = refl

get_event_by_name_again_example :
    get_event_by_name local
      (codes "Gala")
      (record (get_event_by_name local (codes "Gala") events).1 {
        conn = record Shop.tables { events = [] };
      })
    ≡ (
      ok gala,
      record (get_event_by_name local (codes "Gala") events).1 {
        conn = record Shop.tables { events = [] };
      },
    )
get_event_by_name_again_example =
    get_event_by_name_again local (codes "Gala") events gala (record Shop.tables { events = [] })
      known
