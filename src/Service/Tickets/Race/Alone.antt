-- ===== src/Service/Tickets/Race/Alone.antt =====
-- A purchase whose thread takes every turn is `buyTicket` as a whole.
use ticket_ist.Prelude.{ℕ, zero, suc, ◌≡◌, arith, Option-cases, inl, inr}
use ticket_ist.Platform.{Platform}
use ticket_ist.Repository.Tickets
use ticket_ist.Service.Tickets.{TicketService, buy_ticket, retire_old_ticket}
use ticket_ist.Service.Tickets.Race.{Order, Purchase, counts, ended, advance}

module _ (p : Platform) where
  unfoldable pub run_alone : ℕ → Purchase p → p.Conn → Purchase p × p.Conn
  run_alone zero t c = (t, c)
  run_alone (suc n) t c = let (t', c') = advance p t c in run_alone n t' c'

  -- A purchase that nothing comes between ends in eight calls at most, with the result and the
  -- connection of `buyTicket`, whatever the database does.
  pub run_alone-buy_ticket :
      (o : Order) (s : TicketService p)
      → run_alone 8 (counts o) s.conn ≡ (
        ended (buy_ticket p o.now o.draw o.ticket_id o.event_id o.user_id s).0,
        (buy_ticket p o.now o.draw o.ticket_id o.event_id o.user_id s).1.conn,
      )
  unfolding run_alone advance buy_ticket retire_old_ticket
  run_alone-buy_ticket o s =
      let c1 = (Tickets.get_nr_of_tickets_owned p o.user_id s.conn).1 in
      elim (Option-cases (Tickets.get_ticket_info_by_id p o.ticket_id c1).0) [
        | inl unlisted ↦ ground (arith, unlisted)
        | inr (info, listed) ↦ ground (arith, listed)
      ]
