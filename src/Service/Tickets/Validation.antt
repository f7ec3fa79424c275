-- ===== src/Service/Tickets/Validation.antt =====
-- `validateTicket` on a reliable server: all its branches, and that a ticket is let in once.
use ticket_ist.Prelude.{
  ◌≡◌, refl, Bool, true, false, Option, none, some, Bytes, arith, Option-cases, inl, inr, ok,
  if◌then◌else◌,
}
use ticket_ist.Platform.{Platform, compute_sha256}
use ticket_ist.Database.{first_row}
use ticket_ist.Database.Laws.{IsReliable}
use ticket_ist.Database.Rows.{where_rows-use}
use ticket_ist.Database.Schema
use ticket_ist.Database.Schema.{TicketRow, Tables, use_rows, has_code}
use ticket_ist.Repository.Tickets
use ticket_ist.Repository.Tickets.Answers
use ticket_ist.Service.Tickets.{TicketService, validate_ticket, unknown_code, in_use}

module _ (p : Platform) where
  -- The stored row of a validation code.
  abbrev pub stored : Bytes → Tables p.Price → Option TicketRow
  stored code t = first_row (some (Schema.select_ticket p.collate (compute_sha256 p code) t))

  abbrev pub mark_used : Bytes → Tables p.Price → Tables p.Price
  mark_used code t = record t {
    ticket = use_rows (has_code p.collate (compute_sha256 p code)) t.ticket;
  }

  -- What a door is told, and the tables behind it.
  abbrev pub admission : Bytes → Tables p.Price → (Bool × Bytes) × Tables p.Price
  admission code t = elim (stored code t) [
    | none ↦ ((false, unknown_code), t)
    | some r ↦ if r.used then ((false, in_use), t) else ((true, r.info), mark_used code t)
  ]

  module _ (R : IsReliable p.sql) (code : Bytes) (s : TicketService p) where
    -- On a reliable server a validation lets in exactly a stored ticket that is not in use, tells
    -- its seat, and marks it; in all other cases it gives the reason and changes no table.
    pub validate_ticket-admission :
        ((validate_ticket p code s).0 ≡ ok (admission code (p.tables s.conn)).0)
        × (p.tables (validate_ticket p code s).1.conn ≡ (admission code (p.tables s.conn)).1)
    unfolding validate_ticket Schema.use_ticket
    validate_ticket-admission =
        let h = compute_sha256 p code in
        let c1 = (Tickets.exists_ticket_with_validation_code p h s.conn).1 in
        ground (
          arith,
          Answers.exists_ticket_with_validation_code_lem p R s.conn h,
          Answers.set_ticket_in_use_lem p R c1 h,
        )

  module _ (code : Bytes) where
    admission-mark_used :
        (t : Tables p.Price) (r : TicketRow)
        → stored code t ≡ some r
        → admission code (mark_used code t) ≡ ((false, in_use), mark_used code t)
    unfolding Schema.select_ticket
    admission-mark_used t r h =
        let again =
          where_rows-use (has_code p.collate (compute_sha256 p code)) (λ _. refl) t.ticket r h in
        ground (arith, again)

    -- On a reliable server a code that was let in is turned away as being in use when it is
    -- validated again right after.
    pub validate_ticket_once :
        (R : IsReliable p.sql) (s : TicketService p) (seat : Bytes)
        → (validate_ticket p code s).0 ≡ ok (true, seat)
        → (validate_ticket p code (validate_ticket p code s).1).0 ≡ ok (false, in_use)
    validate_ticket_once R s seat h = elim (Option-cases (stored code (p.tables s.conn))) [
      | inl absent ↦ ground (arith, validate_ticket-admission R code s)
      | inr (r, found) ↦ ground (
        arith,
        found,
        validate_ticket-admission R code s,
        validate_ticket-admission R code (validate_ticket p code s).1,
        admission-mark_used (p.tables s.conn) r found,
      )
    ]
