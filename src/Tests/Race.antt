-- ===== src/Tests/Race.antt =====
-- Two purchases at once, of a buyer with five tickets.
use ticket_ist.Prelude.{ℕ, ◌+◌, ◌≤◌, ◌≡◌, refl, false, List, [], ◌∷◌, codes, arith, str_eq}
use ticket_ist.Prelude.Int.{pos}
use ticket_ist.Platform.{compute_sha256}
use ticket_ist.Ticket.Code.{generate_validation_code}
use ticket_ist.Database.{run_select, run_update}
use ticket_ist.Repository.Tickets
use ticket_ist.Database.Schema
use ticket_ist.Database.Schema.{Tables, TicketRow}
use ticket_ist.Service.Tickets.Race.{Order, interleave, idle}
use ticket_ist.Service.Tickets.Race.Limit.{interleave_limit}
use ticket_ist.Tests.Server.{local, memory-IsReliable}
use ticket_ist.Tests.Shop.{tables, now, draw}

abbrev row : ℕ → TicketRow
row code = record {
  validation_code = code ∷ [];
  ticket_hash = [];
  info = codes "1A";
  used = false;
  owner_id = pos 5;
}

abbrev five : Tables ℕ
five = record tables { ticket = row 1 ∷ row 2 ∷ row 3 ∷ row 4 ∷ row 5 ∷ [] }

abbrev first : Order
first = record { now = now; draw = draw; ticket_id = pos 7; event_id = pos 1; user_id = pos 5 }

abbrev second : Order
second = record { now = now; draw = λ i. i; ticket_id = pos 8; event_id = pos 1; user_id = pos 5 }

-- Both count, and then each stores its ticket.
abbrev turns : List (ℕ × Order)
turns =
    (0, first)
    ∷ (1, second)
    ∷ (0, first)
    ∷ (0, first)
    ∷ (0, first)
    ∷ (1, second)
    ∷ (1, second)
    ∷ (1, second)
    ∷ []

few : Schema.count_owned (pos 5) five ≤ 6
unfolding Schema.count_owned Schema.where_rows
few = ground arith

interleave_limit_example :
    Schema.count_owned (pos 5) (interleave local turns (idle local 2) five).1 ≤ 5 + 2
interleave_limit_example =
    interleave_limit local memory-IsReliable (pos 5) 2 turns five (omega arith) few

-- The bound is met.
seven : Schema.count_owned (pos 5) (interleave local turns (idle local 2) five).1 ≡ 7
unfolding Schema.count_owned interleave idle Tickets.get_nr_of_tickets_owned run_select
    Tickets.get_ticket_info_by_id Schema.select_info Tickets.make_ticket_unavailable run_update
    Schema.delete_info Tickets.add_new_ticket Schema.insert_ticket str_eq compute_sha256
    generate_validation_code
seven = refl

abbrev other : Order
other = record first { user_id = pos 6; draw = λ i. i }

abbrev same_ticket : List (ℕ × Order)
same_ticket =
    (0, first)
    ∷ (1, other)
    ∷ (0, first)
    ∷ (1, other)
    ∷ (0, first)
    ∷ (1, other)
    ∷ (0, first)
    ∷ (1, other)
    ∷ []

-- Two buyers of one ticket: both find it, and both withdraw it and store one.
sold_twice :
    let c = (interleave local same_ticket (idle local 2) tables).1 in
    (Schema.count_owned (pos 5) c ≡ 1) × (Schema.count_owned (pos 6) c ≡ 1)
unfolding Schema.count_owned interleave idle Tickets.get_nr_of_tickets_owned run_select
    Tickets.get_ticket_info_by_id Schema.select_info Tickets.make_ticket_unavailable run_update
    Schema.delete_info Tickets.add_new_ticket Schema.insert_ticket str_eq compute_sha256
    generate_validation_code
sold_twice = (refl, refl)
