-- ===== src/Service/Tickets/Handover.antt =====
-- A resale from the buyer's side: the ticket of the seller is void once it is bought.
use ticket_ist.Prelude.{ℕ, ◌<◌, ◌≡◌, false, none, some, [], ◌∷◌, ◌++◌, Bytes, arith, ok}
use ticket_ist.Prelude.Int.{ℤ}
use ticket_ist.Platform.{Platform, compute_sha256}
use ticket_ist.Ticket.{TicketInfo, Tm}
use ticket_ist.Database.{first_row}
use ticket_ist.Database.Laws.{IsReliable}
use ticket_ist.Database.Rows.{where_rows-delete}
use ticket_ist.Database.Schema
use ticket_ist.Database.Schema.{ResellRow, Tables, has_code}
use ticket_ist.Service.Tickets.{TicketService, buy_ticket, validate_ticket, ticket_of, unknown_code}
use ticket_ist.Service.Tickets.Purchase.{bought_row, after_purchase, buy_ticket-succeeds}
use ticket_ist.Service.Tickets.Lifecycle.{IsFresh}
use ticket_ist.Service.Tickets.Validation.{stored, validate_ticket-admission}

module _ (p : Platform) (now : Tm) (draw : ℕ → ℕ) (id event user : ℤ)
    (info : TicketInfo p.Price) where
  -- The rows of the resale's hash are gone behind the purchase.
  stored-handed_over :
      (t : Tables p.Price) (r : ResellRow) (old_code : Bytes)
      → first_row (some (Schema.select_resell info.ticket_id t)) ≡ some r
      → r.hash_val_code ≡ compute_sha256 p old_code
      → stored p old_code (after_purchase p now draw id event user info t) ≡ none
  unfolding Schema.select_ticket Schema.select_resell ticket_of
  stored-handed_over t r old_code resold hash =
      let rows = t.ticket ++ bought_row p now draw id event user info ∷ [] in
      let gone = where_rows-delete (has_code p.collate (compute_sha256 p old_code)) rows in
      ground (arith, resold, hash, gone)

  -- On a reliable server, if a ticket is bought that its owner had put on sale, the owner's
  -- validation code is unknown at the door right after. The conditions are those of a purchase that
  -- succeeds: the buyer has fewer than six tickets, the ticket is listed under the id and the event
  -- asked for, and the new validation code is fresh.
  pub validate_ticket-buy_ticket_resold :
      IsReliable p.sql
      → (s : TicketService p) (r : ResellRow) (old_code : Bytes)
      → Schema.count_owned user (p.tables s.conn) < 6
      → first_row (some (Schema.select_info id (p.tables s.conn))) ≡ some info
      → info.event_id ≡ event
      → IsFresh p now draw id event user info.ticket_id (p.tables s.conn)
      → first_row (some (Schema.select_resell info.ticket_id (p.tables s.conn))) ≡ some r
      → r.hash_val_code ≡ compute_sha256 p old_code
      → (validate_ticket p old_code (buy_ticket p now draw id event user s).1).0
        ≡ ok (false, unknown_code)
  validate_ticket-buy_ticket_resold R s r old_code few listed at fresh resold hash =
      let s' = (buy_ticket p now draw id event user s).1 in
      let (done, tables) =
        buy_ticket-succeeds p now draw id event user R s info few listed at fresh.no_ticket in
      ground (
        arith,
        tables,
        validate_ticket-admission p R old_code s',
        stored-handed_over (p.tables s.conn) r old_code resold hash,
      )
