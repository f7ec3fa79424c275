-- ===== src/Service/Tickets/Purchase.antt =====
-- `buyTicket` on a reliable server: what it returns and what it leaves in the tables.
use ticket_ist.Prelude.{ℕ, ◌<◌, ◌≡◌, false, none, some, [], ◌∷◌, ◌++◌, Bytes, arith, ok}
use ticket_ist.Prelude.Int.{ℤ}
use ticket_ist.Platform.{Platform, compute_sha256}
use ticket_ist.Ticket.{Ticket, TicketInfo, Tm}
use ticket_ist.Ticket.Format
use ticket_ist.Ticket.Code.{generate_validation_code}
use ticket_ist.Database.{first_row}
use ticket_ist.Database.Laws.{IsReliable}
use ticket_ist.Database.Schema
use ticket_ist.Database.Schema.{TicketRow, Tables, any_row, delete_rows, has_code, resells}
use ticket_ist.Repository.Tickets
use ticket_ist.Repository.Tickets.Answers
use ticket_ist.Service.Tickets.{TicketService, retire_old_ticket, buy_ticket, ticket_of}

module _ (p : Platform) where
  -- The tables without the ticket that was put on sale under the id `i`.
  abbrev pub retire : ℤ → Tables p.Price → Tables p.Price
  retire i t = elim (first_row (some (Schema.select_resell i t))) [
    | none ↦ t
    | some r ↦ record t {
      resell_tickets = delete_rows (resells i) t.resell_tickets;
      ticket = delete_rows (has_code p.collate r.hash_val_code) t.ticket;
    }
  ]

  module _ (R : IsReliable p.sql) (i : ℤ) (s : TicketService p) where
    retire_old_ticket_lem :
        ((retire_old_ticket p i s).0 ≡ ok tt)
        × (p.tables (retire_old_ticket p i s).1.conn ≡ retire i (p.tables s.conn))
    unfolding retire_old_ticket Schema.delete_resell Schema.delete_ticket
    retire_old_ticket_lem =
        let c1 = (Tickets.is_ticket_in_resell p i s.conn).1 in
        let c2 = (Tickets.get_old_ticket_val_code_hash p i c1).1 in
        let c3 = Tickets.remove_ticket_from_resell p i c2 in
        let h = (Tickets.get_old_ticket_val_code_hash p i c1).0 in
        ground (
          arith,
          Answers.is_ticket_in_resell_lem p R s.conn i,
          Answers.get_old_ticket_val_code_hash_lem p R c1 i,
          Answers.remove_ticket_from_resell_lem p R c2 i,
          Answers.remove_ticket_lem p R c3 h,
        )

  module _ (now : Tm) (draw : ℕ → ℕ) (id : ℤ) (event : ℤ) (user : ℤ) where
    -- The validation code, the ticket and the row of a purchase.
    abbrev pub code : Bytes
    code = generate_validation_code draw 10

    abbrev pub bought : TicketInfo p.Price → Ticket p.Price
    bought info = ticket_of p now code user info

    abbrev pub bought_row : TicketInfo p.Price → TicketRow
    bought_row info = record {
      validation_code = compute_sha256 p code;
      ticket_hash = compute_sha256 p (Format.serialize p.floats (bought info));
      info = (bought info).seat;
      used = false;
      owner_id = user;
    }

    abbrev pub after_purchase : TicketInfo p.Price → Tables p.Price → Tables p.Price
    after_purchase info t = retire (bought info).ticket_id (record t {
      ticket_info = delete_rows (Schema.has_ticket_id id) t.ticket_info;
      ticket = t.ticket ++ bought_row info ∷ [];
    })

    -- On a reliable server a buyer with fewer than six tickets gets the ticket that is listed under
    -- the id and the event asked for, if its validation code is new. The listing goes, the new
    -- ticket is stored unused, and the ticket that its seller had goes with its resale.
    pub buy_ticket-succeeds :
        IsReliable p.sql
        → (s : TicketService p) (info : TicketInfo p.Price)
        → Schema.count_owned user (p.tables s.conn) < 6
        → first_row (some (Schema.select_info id (p.tables s.conn))) ≡ some info
        → info.event_id ≡ event
        → any_row (has_code p.collate (compute_sha256 p code)) (p.tables s.conn).ticket ≡ false
        → ((buy_ticket p now draw id event user s).0 ≡ ok (bought info))
          × (p.tables (buy_ticket p now draw id event user s).1.conn
              ≡ after_purchase info (p.tables s.conn))
    unfolding buy_ticket Schema.delete_info Schema.insert_ticket
    buy_ticket-succeeds R s info few listed at fresh =
        let c1 = (Tickets.get_nr_of_tickets_owned p user s.conn).1 in
        let c2 = (Tickets.get_ticket_info_by_id p id c1).1 in
        let c3 = (Tickets.make_ticket_unavailable p id c2).1 in
        let row = bought_row info in
        let c4 =
          (Tickets.add_new_ticket p row.validation_code row.ticket_hash row.info user c3).1 in
        let s4 = record s { conn = c4 } in
        ground (
          arith,
          few,
          listed,
          at,
          fresh,
          Answers.get_nr_of_tickets_owned_lem p R s.conn user,
          Answers.get_ticket_info_by_id_lem p R c1 id,
          Answers.make_ticket_unavailable_lem p R c2 id,
          Answers.add_new_ticket_lem p R c3 row.validation_code row.ticket_hash row.info user
              (record (p.tables s.conn) {
                ticket_info = delete_rows (Schema.has_ticket_id id) (p.tables s.conn).ticket_info;
                ticket = (p.tables s.conn).ticket ++ row ∷ [];
              }),
          retire_old_ticket_lem R (bought info).ticket_id s4,
        )
