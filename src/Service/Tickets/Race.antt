-- ===== src/Service/Tickets/Race.antt =====
-- `TicketService::buyTicket`, common/src/Services/TicketService.cpp, on several threads at once. A thread
-- stands before one call of the repository, which is one statement of the database, and the threads
-- take turns between the statements, in any order.
pub mod Limit
pub mod Alone
use ticket_ist.Prelude.{
  ℕ, zero, suc, leb, Option, none, some, List, [], ◌∷◌, Bytes, if◌then◌else◌, Result, ok, throw,
}
use ticket_ist.Prelude.Int.{ℤ, ◌==ℤ◌}
use ticket_ist.Platform.{Platform, compute_sha256}
use ticket_ist.Ticket.{Ticket, TicketInfo, Tm}
use ticket_ist.Ticket.Format
use ticket_ist.Ticket.Code.{generate_validation_code}
use ticket_ist.Repository.Tickets
use ticket_ist.Service.Tickets.{
  ticket_of, max_owned, too_many, not_available, no_longer_available, went_wrong,
}

-- The arguments of a call, with the time and the draws that it gets.
pub record Order : Type 0 where
  pub now : Tm
  pub draw : ℕ → ℕ
  pub ticket_id : ℤ
  pub event_id : ℤ
  pub user_id : ℤ

-- The call of the repository that comes next, with the variables that are still needed.
pub data Purchase (p : Platform) : Type 0 where
  waits : Purchase p
  counts : Order → Purchase p
  finds : Order → Purchase p
  delists : Order → TicketInfo p.Price → Purchase p
  adds : Order → TicketInfo p.Price → Purchase p
  asks_resale : Ticket p.Price → Purchase p
  reads_old : Ticket p.Price → Purchase p
  ends_resale : Ticket p.Price → Bytes → Purchase p
  removes_old : Ticket p.Price → Bytes → Purchase p
  ended : Result (Ticket p.Price) → Purchase p

module _ (p : Platform) where
  abbrev pub counted : Order → ℕ → Purchase p
  counted o owned = if leb max_owned owned then ended (throw too_many) else finds o

  abbrev pub found : Order → Option (TicketInfo p.Price) → Purchase p
  found o none = ended (throw not_available)
  found o (some info) =
      if info.event_id ==ℤ o.event_id then delists o info else ended (throw not_available)

  abbrev pub ordered : Order → TicketInfo p.Price → Ticket p.Price
  ordered o info = ticket_of p o.now (generate_validation_code o.draw 10) o.user_id info

  -- The next call, and what follows up to the one behind it.
  unfoldable pub advance : Purchase p → p.Conn → Purchase p × p.Conn
  advance waits c = (waits, c)
  advance (counts o) c =
      let (owned, c') = Tickets.get_nr_of_tickets_owned p o.user_id c in (counted o owned, c')
  advance (finds o) c =
      let (info, c') = Tickets.get_ticket_info_by_id p o.ticket_id c in (found o info, c')
  advance (delists o info) c =
      let (gone, c') = Tickets.make_ticket_unavailable p o.ticket_id c in
      (if gone then adds o info else ended (throw no_longer_available), c')
  advance (adds o info) c =
      let ticket = ordered o info in
      let (added, c') =
        Tickets.add_new_ticket p (compute_sha256 p (generate_validation_code o.draw 10))
          (compute_sha256 p (Format.serialize p.floats ticket)) ticket.seat o.user_id c in
      (if added then asks_resale ticket else ended (throw went_wrong), c')
  advance (asks_resale ticket) c =
      let (resold, c') = Tickets.is_ticket_in_resell p ticket.ticket_id c in
      (if resold then reads_old ticket else ended (ok ticket), c')
  advance (reads_old ticket) c =
      let (old, c') = Tickets.get_old_ticket_val_code_hash p ticket.ticket_id c in
      (ends_resale ticket old, c')
  advance (ends_resale ticket old) c =
      (removes_old ticket old, Tickets.remove_ticket_from_resell p ticket.ticket_id c)
  advance (removes_old ticket old) c = (ended (ok ticket), Tickets.remove_ticket p old c)
  advance (ended r) c = (ended r, c)

  -- A thread with nothing to do takes the next order.
  unfoldable pub begin : Order → Purchase p → Purchase p
  begin o waits = counts o
  begin o (ended r) = counts o
  begin o (counts a) = counts a
  begin o (finds a) = finds a
  begin o (delists a info) = delists a info
  begin o (adds a info) = adds a info
  begin o (asks_resale ticket) = asks_resale ticket
  begin o (reads_old ticket) = reads_old ticket
  begin o (ends_resale ticket old) = ends_resale ticket old
  begin o (removes_old ticket old) = removes_old ticket old

  unfoldable pub take_turn : ℕ → Order → List (Purchase p) → p.Conn → List (Purchase p) × p.Conn
  unfolding advance begin
  take_turn i o [] c = ([], c)
  take_turn zero o (t ∷ ts) c = let (t', c') = advance (begin o t) c in (t' ∷ ts, c')
  take_turn (suc i) o (t ∷ ts) c = let (ts', c') = take_turn i o ts c in (t ∷ ts', c')

  -- The threads by the order of their turns, each with what comes in for it.
  unfoldable pub interleave :
      List (ℕ × Order) → List (Purchase p) → p.Conn → List (Purchase p) × p.Conn
  unfolding take_turn
  interleave [] ts c = (ts, c)
  interleave ((i, o) ∷ turns) ts c = let (ts', c') = take_turn i o ts c in interleave turns ts' c'

  unfoldable pub idle : ℕ → List (Purchase p)
  idle zero = []
  idle (suc n) = waits ∷ idle n
