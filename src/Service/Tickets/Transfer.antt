-- ===== src/Service/Tickets/Transfer.antt =====
-- A ticket from its sale by one user to its purchase by another, on a reliable server.
use ticket_ist.Prelude.{ℕ, ◌<◌, ◌≡◌, refl, true, false, none, some, [], ◌∷◌, ◌++◌, Bytes, arith, ok}
use ticket_ist.Prelude.Int.{ℤ, pos, ◌==ℤ◌, ==ℤ_iff}
use ticket_ist.Platform.{Platform}
use ticket_ist.Ticket.{Ticket, TicketInfo, Tm}
use ticket_ist.Ticket.Format
use ticket_ist.Database.{first_row}
use ticket_ist.Database.Laws.{IsReliable}
use ticket_ist.Database.Rows.{where_rows-insert, any_row-none}
use ticket_ist.Database.Schema
use ticket_ist.Database.Schema.{ResellRow, Tables, any_row, has_ticket_id, resells}
use ticket_ist.Service.Tickets.{
  TicketService, buy_ticket, validate_ticket, sell_ticket, unknown_code,
}
use ticket_ist.Service.Tickets.Purchase.{code, bought, buy_ticket-succeeds}
use ticket_ist.Service.Tickets.Lifecycle.{IsFresh, validate_ticket-buy_ticket}
use ticket_ist.Service.Tickets.Handover.{validate_ticket-buy_ticket_resold}
use ticket_ist.Service.Tickets.Resale.{relisted, sale_hash, IsSold, sell_ticket-IsSold}

module _ {Price : Type 0} where
  -- What an insert of a listing under an id of its own means.
  insert_info-rows :
      (i : TicketInfo Price) (t t' : Tables Price)
      → (i.ticket_id ==ℤ pos 0) ≡ false
      → Schema.insert_info i t ≡ some t'
      → (any_row (has_ticket_id i.ticket_id) t.ticket_info ≡ false)
        × (t'.ticket_info ≡ t.ticket_info ++ i ∷ [])
        × (t'.resell_tickets ≡ t.resell_tickets)
  unfolding Schema.insert_info
  insert_info-rows i t t' own e = ground (arith, own, e)

  insert_resell-rows :
      (collate : Bytes → Bytes) (h : Bytes) (i : ℤ) (t t' : Tables Price)
      → Schema.insert_resell collate h i t ≡ some t'
      → (t'.ticket_info ≡ t.ticket_info)
        × (t'.resell_tickets ≡ t.resell_tickets ++ record { hash_val_code = h; ticket_id = i } ∷ [])
  unfolding Schema.insert_resell
  insert_resell-rows collate h i t t' e = ground (arith, e)

module _ (p : Platform) (t : Ticket p.Price) (new_price : p.Price) (before after : Tables p.Price)
    (own : (t.ticket_id ==ℤ pos 0) ≡ false) (sold : IsSold p t new_price before after) where
  abbrev resale : ResellRow
  resale = record { hash_val_code = sale_hash p t new_price; ticket_id = t.ticket_id }

  listed_after :
      first_row (some (Schema.select_info t.ticket_id after)) ≡ some (relisted p t new_price)
  unfolding Schema.select_info
  listed_after =
      let info = relisted p t new_price in
      let (free, rows, same) = insert_info-rows info before sold.listing own sold.listed in
      let (kept, more) =
        insert_resell-rows p.collate (sale_hash p t new_price) t.ticket_id sold.listing after
          sold.resold in
      rw (kept, rows)
        (rw
          (where_rows-insert (has_ticket_id t.ticket_id) before.ticket_info info free
            ((==ℤ_iff t.ticket_id t.ticket_id).1 refl))
          refl)

  resold_after :
      first_row (some (Schema.select_resell t.ticket_id before)) ≡ none
      → first_row (some (Schema.select_resell t.ticket_id after)) ≡ some resale
  unfolding Schema.select_resell
  resold_after none_ =
      let info = relisted p t new_price in
      let (free, rows, same) = insert_info-rows info before sold.listing own sold.listed in
      let (kept, more) =
        insert_resell-rows p.collate (sale_hash p t new_price) t.ticket_id sold.listing after
          sold.resold in
      rw (more, same)
        (rw
          (where_rows-insert (resells t.ticket_id) before.resell_tickets resale
            (any_row-none (resells t.ticket_id) before.resell_tickets none_)
            ((==ℤ_iff t.ticket_id t.ticket_id).1 refl))
          refl)

module _ (p : Platform) (now : Tm) (draw : ℕ → ℕ) (user : ℤ) (t : Ticket p.Price)
    (new_price : p.Price) where
  -- The state behind the sale, and the one behind the purchase that follows.
  abbrev pub after_sale : Bytes → TicketService p → TicketService p
  after_sale text s = (sell_ticket p text new_price s).1

  abbrev pub after_both : Bytes → TicketService p → TicketService p
  after_both text s = (buy_ticket p now draw t.ticket_id t.event_id user (after_sale text s)).1

  -- On a reliable server, after a successful sale of a text that is read as the ticket `t`, a user with
  -- fewer than six tickets can buy it at the new price from the one who sold it; right after, the new
  -- validation code is let in with the seat of `t`, and the old one is unknown. The id of `t` is not 0
  -- and was in no resale before, and the new validation code is fresh.
  pub buy_ticket-sell_ticket :
      IsReliable p.sql
      → (text : Bytes) (s : TicketService p) → Format.deserialize p.floats text ≡ ok t
      → (t.ticket_id ==ℤ pos 0) ≡ false
      → first_row (some (Schema.select_resell t.ticket_id (p.tables s.conn))) ≡ none
      → (sell_ticket p text new_price s).0 ≡ ok true
      → Schema.count_owned user (p.tables (after_sale text s).conn) < 6
      → IsFresh p now draw t.ticket_id t.event_id user t.ticket_id
          (p.tables (after_sale text s).conn)
      → ((buy_ticket p now draw t.ticket_id t.event_id user (after_sale text s)).0
          ≡ ok (bought p now draw t.ticket_id t.event_id user (relisted p t new_price)))
        × ((validate_ticket p (code p now draw t.ticket_id t.event_id user) (after_both text s)).0
            ≡ ok (true, t.seat))
        × ((validate_ticket p t.validation_code (after_both text s)).0 ≡ ok (false, unknown_code))
  buy_ticket-sell_ticket R text s reads own none_ done few fresh =
      let s' = (sell_ticket p text new_price s).1 in
      let info = relisted p t new_price in
      let before = p.tables s.conn in
      let after = p.tables s'.conn in
      let sold = sell_ticket-IsSold p t new_price R.laws text s reads done in
      let listed = listed_after p t new_price before after own sold in
      let resold = resold_after p t new_price before after own sold none_ in
      (
        (buy_ticket-succeeds p now draw t.ticket_id t.event_id user R s' info few listed refl
            fresh.no_ticket).0,
        validate_ticket-buy_ticket p now draw t.ticket_id t.event_id user R s' info few listed refl
            fresh,
        validate_ticket-buy_ticket_resold p now draw t.ticket_id t.event_id user info R s'
            (resale p t new_price before after own sold) t.validation_code few listed refl fresh
            resold refl,
      )
