-- ===== src/Repository/Tickets.antt =====
-- `class TicketRepository`, common/src/Repositories/TicketRepository.cpp.
pub mod Answers
pub mod Reset
use ticket_ist.Prelude.{
  ℕ, zero, suc, ◌+◌, ◌-◌, ◌*◌, ◌%◌, Bool, true, false, Option, none, some, List, [], ◌∷◌, Bytes,
  if◌then◌else◌,
}
use ticket_ist.Prelude.Int.{ℤ, pos}
use ticket_ist.Platform.{Platform}
use ticket_ist.Ticket.{TicketInfo}
use ticket_ist.Ticket.Code.{generate_random_seat}
use ticket_ist.Database.{run_select, run_update, first_row}
use ticket_ist.Database.Schema
use ticket_ist.Database.Schema.{TicketRow, ResellRow}

module _ (p : Platform) where
  unfoldable pub delete_all_tickets : p.Conn → p.Conn
  delete_all_tickets c = (run_update p.sql Schema.truncate_info c).1

  -- A row of a new database: a price from 10 to 100, and a seat, from three draws.
  abbrev pub drawn_info : (ℕ → ℕ) → ℕ → ℕ → TicketInfo p.Price
  drawn_info draw k event = record {
    ticket_id = pos 0;
    event_id = pos event;
    seller_id = pos 0;
    price = p.whole ((draw k % 10 + 1) * 10);
    seat = generate_random_seat (draw (k + 1)) (draw (k + 2));
  }

  -- The inner loop, with the rows of the event that are left; an exception ends both loops.
  unfoldable pub insert_tickets : (ℕ → ℕ) → ℕ → ℕ → ℕ → p.Conn → Bool × p.Conn
  insert_tickets draw k event zero c = (true, c)
  insert_tickets draw k event (suc left) c =
      let (done, c') = p.execute (Schema.insert_info (drawn_info draw k event)) c in
      let rest = insert_tickets draw (k + 3) event left c' in if done then rest else (false, c')

  -- The outer loop, with the number of events that are left of four.
  unfoldable pub insert_events : (ℕ → ℕ) → ℕ → ℕ → p.Conn → Bool × p.Conn
  insert_events draw k zero c = (true, c)
  insert_events draw k (suc left) c =
      let (done, c') = insert_tickets draw k (4 - left) 20 c in
      let rest = insert_events draw (k + 60) left c' in if done then rest else (false, c')

  -- The draws of `rand` are inputs.
  unfoldable pub reset_tickets : (ℕ → ℕ) → p.Conn → p.Conn
  reset_tickets draw c =
      let c' = delete_all_tickets c in if p.is_valid c' then (insert_events draw 0 4 c').1 else c'

  unfoldable pub get_all_tickets_from_event_id : ℤ → p.Conn → List (TicketInfo p.Price) × p.Conn
  get_all_tickets_from_event_id e c =
      let (r, c') = run_select p.sql (TicketInfo p.Price) (Schema.select_event_infos e) c in
      (elim r [ none ↦ [] | some rows ↦ rows ], c')

  unfoldable pub get_ticket_info_by_id : ℤ → p.Conn → Option (TicketInfo p.Price) × p.Conn
  get_ticket_info_by_id i c =
      let (r, c') = run_select p.sql (TicketInfo p.Price) (Schema.select_info i) c in
      (first_row r, c')

  unfoldable pub add_new_ticket : Bytes → Bytes → Bytes → ℤ → p.Conn → Bool × p.Conn
  add_new_ticket code hash info user =
      run_update p.sql (Schema.insert_ticket p.collate code hash info user)

  unfoldable pub make_ticket_unavailable : ℤ → p.Conn → Bool × p.Conn
  make_ticket_unavailable i = run_update p.sql (Schema.delete_info i)

  -- The info and the `used` flag of the ticket, if there is one.
  unfoldable pub exists_ticket_with_validation_code :
      Bytes → p.Conn → Option (Bytes × Bool) × p.Conn
  exists_ticket_with_validation_code h c =
      let (r, c') = run_select p.sql TicketRow (Schema.select_ticket p.collate h) c in
      (elim (first_row r) [ none ↦ none | some row ↦ some (row.info, row.used) ], c')

  unfoldable pub delete_ticket_by_validation_code : Bytes → p.Conn → p.Conn
  delete_ticket_by_validation_code h c = (run_update p.sql (Schema.delete_ticket p.collate h) c).1

  unfoldable pub set_ticket_in_use : Bytes → p.Conn → p.Conn
  set_ticket_in_use h c = (run_update p.sql (Schema.use_ticket p.collate h) c).1

  unfoldable pub get_ticket_hash_by_validation_code : Bytes → p.Conn → Option Bytes × p.Conn
  get_ticket_hash_by_validation_code h c =
      let (r, c') = run_select p.sql TicketRow (Schema.select_ticket p.collate h) c in
      (elim (first_row r) [ none ↦ none | some row ↦ some row.ticket_hash ], c')

  -- A failure counts as no ticket.
  unfoldable pub get_nr_of_tickets_owned : ℤ → p.Conn → ℕ × p.Conn
  get_nr_of_tickets_owned u c =
      let (r, c') = run_select p.sql ℕ (λ t. Schema.count_owned u t ∷ []) c in
      (elim (first_row r) [ none ↦ 0 | some n ↦ n ], c')

  unfoldable pub add_ticket_info : TicketInfo p.Price → p.Conn → Bool × p.Conn
  add_ticket_info i = run_update p.sql (Schema.insert_info i)

  unfoldable pub add_ticket_to_resell : Bytes → ℤ → p.Conn → Bool × p.Conn
  add_ticket_to_resell h i = run_update p.sql (Schema.insert_resell p.collate h i)

  unfoldable pub is_ticket_in_resell : ℤ → p.Conn → Bool × p.Conn
  is_ticket_in_resell i c =
      let (r, c') = run_select p.sql ResellRow (Schema.select_resell i) c in
      (elim (first_row r) [ none ↦ false | some row ↦ true ], c')

  unfoldable pub get_old_ticket_val_code_hash : ℤ → p.Conn → Bytes × p.Conn
  get_old_ticket_val_code_hash i c =
      let (r, c') = run_select p.sql ResellRow (Schema.select_resell i) c in
      (elim (first_row r) [ none ↦ [] | some row ↦ row.hash_val_code ], c')

  unfoldable pub remove_ticket_from_resell : ℤ → p.Conn → p.Conn
  remove_ticket_from_resell i c = (run_update p.sql (Schema.delete_resell i) c).1

  unfoldable pub remove_ticket : Bytes → p.Conn → p.Conn
  remove_ticket h c = (run_update p.sql (Schema.delete_ticket p.collate h) c).1
