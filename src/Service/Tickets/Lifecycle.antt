-- ===== src/Service/Tickets/Lifecycle.antt =====
-- A ticket from its purchase to the door, on a reliable server.
use ticket_ist.Prelude.{
  ℕ, ◌<◌, ◌≡◌, true, false, some, Bytes, arith, Option-cases, inl, inr, ok, str_eq_refl,
}
use ticket_ist.Prelude.Int.{ℤ}
use ticket_ist.Platform.{Platform, compute_sha256}
use ticket_ist.Ticket.{TicketInfo, Tm}
use ticket_ist.Database.{first_row}
use ticket_ist.Database.Laws.{IsReliable}
use ticket_ist.Database.Rows.{where_rows-insert, delete_rows-insert, any_row-delete}
use ticket_ist.Database.Schema
use ticket_ist.Database.Schema.{ResellRow, Tables, any_row, delete_rows, has_code, same}
use ticket_ist.Service.Tickets.{TicketService, buy_ticket, validate_ticket, ticket_of}
use ticket_ist.Service.Tickets.Purchase.{code, bought_row, after_purchase, buy_ticket-succeeds}
use ticket_ist.Service.Tickets.Validation.{stored, validate_ticket-admission}

module _ (p : Platform) (now : Tm) (draw : ℕ → ℕ) (id event user : ℤ) where
  abbrev pub code_hash : Bytes
  code_hash = compute_sha256 p (code p now draw id event user)

  -- No other ticket has the hash of the new validation code, and the ticket that is resold under
  -- the id `i`, if there is one, has not either.
  pub record IsFresh (i : ℤ) (t : Tables p.Price) : Type 0 where
    pub no_ticket : any_row (has_code p.collate code_hash) t.ticket ≡ false
    pub no_resale :
        (r : ResellRow)
        → first_row (some (Schema.select_resell i t)) ≡ some r
        → same p.collate code_hash r.hash_val_code ≡ false

  module _ (info : TicketInfo p.Price) (t : Tables p.Price) (fresh : IsFresh info.ticket_id t) where
    -- Behind a purchase the new code selects the new row.
    pub stored-after_purchase :
        stored p (code p now draw id event user) (after_purchase p now draw id event user info t)
        ≡ some (bought_row p now draw id event user info)
    unfolding Schema.select_ticket Schema.select_resell ticket_of
    stored-after_purchase =
        let row = bought_row p now draw id event user info in
        let test = has_code p.collate code_hash in
        let match_ = str_eq_refl (p.collate code_hash) in
        elim (Option-cases (first_row (some (Schema.select_resell info.ticket_id t)))) [
          | inl unsold ↦
              ground (arith, unsold, where_rows-insert test t.ticket row fresh.no_ticket match_)
          | inr (r, resold) ↦
              let old = has_code p.collate r.hash_val_code in
              let rest = delete_rows old t.ticket in
              ground (
                arith,
                resold,
                delete_rows-insert old t.ticket row (fresh.no_resale r resold),
                where_rows-insert test rest row (any_row-delete test old t.ticket fresh.no_ticket)
                    match_,
              )
        ]

  -- On a reliable server, if the buyer has fewer than six tickets, the ticket is listed under the
  -- id and the event asked for, and the new validation code is fresh (its hash is neither stored
  -- nor that of the resale that ends), then validating this code right after the purchase lets the
  -- bearer in, and the door is told the seat that was listed.
  pub validate_ticket-buy_ticket :
      IsReliable p.sql
      → (s : TicketService p) (info : TicketInfo p.Price)
      → Schema.count_owned user (p.tables s.conn) < 6
      → first_row (some (Schema.select_info id (p.tables s.conn))) ≡ some info
      → info.event_id ≡ event
      → IsFresh info.ticket_id (p.tables s.conn)
      → (validate_ticket p
          (code p now draw id event user)
          (buy_ticket p now draw id event user s).1).0
        ≡ ok (true, info.seat)
  unfolding ticket_of
  validate_ticket-buy_ticket R s info few listed at fresh =
      let s' = (buy_ticket p now draw id event user s).1 in
      let (done, tables) =
        buy_ticket-succeeds p now draw id event user R s info few listed at fresh.no_ticket in
      ground (
        arith,
        tables,
        validate_ticket-admission p R (code p now draw id event user) s',
        stored-after_purchase info (p.tables s.conn) fresh,
      )
