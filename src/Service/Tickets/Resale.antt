-- ===== src/Service/Tickets/Resale.antt =====
-- `sellTicket`: what a success means, and what it leaves when the second of its two inserts fails.
use ticket_ist.Prelude.{
  ◌≡◌, true, false, some, Bytes, arith, str_eq_iff, Option-cases, inl, inr, ok,
}
use ticket_ist.Platform.{Platform, compute_sha256}
use ticket_ist.Ticket.{Ticket, TicketInfo}
use ticket_ist.Ticket.Format
use ticket_ist.Database.{run_select, run_update}
use ticket_ist.Database.Laws.{SqlLaws, run_select_keeps, run_select_answers, run_update_answers}
use ticket_ist.Database.Schema
use ticket_ist.Database.Schema.{TicketRow, Tables}
use ticket_ist.Repository.Tickets
use ticket_ist.Repository.Tickets.Answers.{hash_of}
use ticket_ist.Service.Tickets.{TicketService, sell_ticket}
use ticket_ist.Service.Tickets.Validation.{stored}

module _ (p : Platform) (t : Ticket p.Price) (new_price : p.Price) where
  -- The listing of a ticket that its owner puts on sale, and the hash that it is known by.
  abbrev pub relisted : TicketInfo p.Price
  relisted = record {
    ticket_id = t.ticket_id;
    event_id = t.event_id;
    seller_id = t.buyer_id;
    price = new_price;
    seat = t.seat;
  }

  abbrev pub sale_hash : Bytes
  sale_hash = compute_sha256 p t.validation_code

  -- What a successful sale requires of the tables, and leaves in them.
  pub record IsSold (before after : Tables p.Price) : Type 0 where
    pub genuine :
        hash_of (stored p t.validation_code before)
        ≡ some (compute_sha256 p (Format.serialize p.floats t))
    pub not_below_zero : p.less new_price p.zero_price ≡ false
    pub not_above_price : p.less t.price new_price ≡ false
    pub listing : Tables p.Price
    pub listed : Schema.insert_info relisted before ≡ some listing
    pub resold : Schema.insert_resell p.collate sale_hash t.ticket_id listing ≡ some after

  -- Under the laws of a statement, whatever statements the server refuses: a sale of a text that is
  -- read as the ticket `t` succeeds only if the hash stored for its validation code is the hash of
  -- the text of `t`, and the price is neither below zero nor above that of `t`; it then has listed
  -- the ticket for its buyer at the new price, and entered the resale.
  pub sell_ticket-IsSold :
      SqlLaws p.sql
      → (text : Bytes) (s : TicketService p) → Format.deserialize p.floats text ≡ ok t
      → (sell_ticket p text new_price s).0 ≡ ok true
      → IsSold (p.tables s.conn) (p.tables (sell_ticket p text new_price s).1.conn)
  unfolding sell_ticket Tickets.get_ticket_hash_by_validation_code Tickets.add_ticket_info
      Tickets.add_ticket_to_resell
  sell_ticket-IsSold L text s reads sold =
      let q = Schema.select_ticket {Price = p.Price} p.collate sale_hash in
      let c1 = (run_select p.sql TicketRow q s.conn).1 in
      let c2 = (run_update p.sql (Schema.insert_info relisted) c1).1 in
      let same = run_select_keeps p.sql L TicketRow q s.conn in
      let answer = run_select_answers p.sql L TicketRow q s.conn in
      let added = run_update_answers p.sql L (Schema.insert_info relisted) c1 in
      let entered =
        run_update_answers p.sql L (Schema.insert_resell p.collate sale_hash t.ticket_id) c2 in
      record {
        genuine = elim (Option-cases (stored p t.validation_code (p.tables s.conn))) [
          | inl absent ↦ ground (arith, reads, sold, answer, absent)
          | inr (r, found) ↦
              let eqs = str_eq_iff r.ticket_hash (compute_sha256 p (Format.serialize p.floats t)) in
              ground (arith, reads, sold, answer, found, eqs)
        ];
        not_below_zero = ground (arith, reads, sold);
        not_above_price = ground (arith, reads, sold);
        listing = p.tables c2;
        listed = ground (arith, reads, sold, same, added);
        resold = ground (arith, reads, sold, entered);
      }
