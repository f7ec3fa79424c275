-- ===== src/Service/Tickets/Outcomes.antt =====
-- `buyTicket` on a reliable server against a description of its outcomes, all of them.
use ticket_ist.Prelude.{
  ℕ, ◌<◌, ◌≡◌, Bool, true, none, some, arith, leb, Option-cases, Bool-cases, inl, inr, Result, ok,
  throw, if◌then◌else◌,
}
use ticket_ist.Prelude.Int.{ℤ, ◌==ℤ◌, ==ℤ_iff}
use ticket_ist.Platform.{Platform, compute_sha256}
use ticket_ist.Ticket.{Ticket, TicketInfo, Tm}
use ticket_ist.Database.{first_row}
use ticket_ist.Database.Laws.{IsReliable, run_update-false}
use ticket_ist.Database.Schema
use ticket_ist.Database.Schema.{Tables, any_row, delete_rows, has_code}
use ticket_ist.Repository.Tickets
use ticket_ist.Repository.Tickets.Answers
use ticket_ist.Service.Tickets.{TicketService, buy_ticket, not_available, too_many, went_wrong}
use ticket_ist.Service.Tickets.Purchase.{
  code, bought, bought_row, after_purchase, buy_ticket-succeeds,
}
use ticket_ist.Service.Tickets.Limit.{
  buy_ticket-too_many, buy_ticket_unlisted, buy_ticket_elsewhere,
}

module _ (p : Platform) (now : Tm) (draw : ℕ → ℕ) (id event user : ℤ) where
  abbrev pub code_taken : Tables p.Price → Bool
  code_taken t =
      any_row (has_code p.collate (compute_sha256 p (code p now draw id event user))) t.ticket

  -- The tables without what is listed under the id.
  abbrev pub unlisted : Tables p.Price → Tables p.Price
  unlisted t = record t { ticket_info = delete_rows (Schema.has_ticket_id id) t.ticket_info }

  -- What is said and left of a ticket that is listed.
  abbrev pub listed_outcome :
      TicketInfo p.Price → Tables p.Price → Result (Ticket p.Price) × Tables p.Price
  listed_outcome info t =
      if info.event_id ==ℤ event
      then if code_taken t then (throw went_wrong, unlisted t) else (
        ok (bought p now draw id event user info),
        after_purchase p now draw id event user info t,
      )
      else (throw not_available, t)

  abbrev pub purchase_outcome : Tables p.Price → Result (Ticket p.Price) × Tables p.Price
  purchase_outcome t =
      if leb 6 (Schema.count_owned user t)
      then (throw too_many, t)
      else elim (first_row (some (Schema.select_info id t))) [
        | none ↦ (throw not_available, t)
        | some info ↦ listed_outcome info t
      ]

  module _ (R : IsReliable p.sql) (s : TicketService p) where
    -- A code that is taken: the listing is gone, and no ticket is stored.
    buy_ticket_stale_code :
        (info : TicketInfo p.Price)
        → Schema.count_owned user (p.tables s.conn) < 6
        → first_row (some (Schema.select_info id (p.tables s.conn))) ≡ some info
        → (info.event_id ==ℤ event) ≡ true
        → code_taken (p.tables s.conn) ≡ true
        → ((buy_ticket p now draw id event user s).0 ≡ throw went_wrong)
          × (p.tables (buy_ticket p now draw id event user s).1.conn ≡ unlisted (p.tables s.conn))
    unfolding buy_ticket Tickets.add_new_ticket Schema.insert_ticket Schema.delete_info
    buy_ticket_stale_code info few listed same taken =
        let c1 = (Tickets.get_nr_of_tickets_owned p user s.conn).1 in
        let c2 = (Tickets.get_ticket_info_by_id p id c1).1 in
        let c3 = (Tickets.make_ticket_unavailable p id c2).1 in
        let row = bought_row p now draw id event user info in
        ground (
          arith,
          few,
          listed,
          same,
          taken,
          Answers.get_nr_of_tickets_owned_lem p R s.conn user,
          Answers.get_ticket_info_by_id_lem p R c1 id,
          Answers.make_ticket_unavailable_lem p R c2 id,
          run_update-false p.sql R
              (Schema.insert_ticket p.collate row.validation_code row.ticket_hash row.info user) c3,
        )

    abbrev Described : Type 0
    Described =
        ((buy_ticket p now draw id event user s).0 ≡ (purchase_outcome (p.tables s.conn)).0)
        × (p.tables (buy_ticket p now draw id event user s).1.conn
            ≡ (purchase_outcome (p.tables s.conn)).1)

    listed_Described :
        (info : TicketInfo p.Price)
        → Schema.count_owned user (p.tables s.conn) < 6
        → first_row (some (Schema.select_info id (p.tables s.conn))) ≡ some info
        → Described
    listed_Described info few listed = elim (Bool-cases (info.event_id ==ℤ event)) [
      | inr ne ↦ ground (
        arith,
        few,
        listed,
        ne,
        buy_ticket_elsewhere p R now draw id event user s info few listed ne,
      )
      | inl same ↦ elim (Bool-cases (code_taken (p.tables s.conn))) [
        | inl taken ↦
            ground
              (arith, few, listed, same, taken, buy_ticket_stale_code info few listed same taken)
        | inr fresh ↦
            let at = (==ℤ_iff info.event_id event).0 same in
            ground (
              arith,
              few,
              listed,
              same,
              fresh,
              buy_ticket-succeeds p now draw id event user R s info few listed at fresh,
            )
      ]
    ]

    -- On a reliable server a purchase returns and leaves what the description says, on all branches:
    -- a buyer with six tickets or more, a ticket that is not listed, one that is listed for another
    -- event, a new validation code whose hash is taken, which loses the listing, and the success.
    pub buy_ticket-purchase_outcome :
        ((buy_ticket p now draw id event user s).0 ≡ (purchase_outcome (p.tables s.conn)).0)
        × (p.tables (buy_ticket p now draw id event user s).1.conn
            ≡ (purchase_outcome (p.tables s.conn)).1)
    buy_ticket-purchase_outcome =
        elim (Bool-cases (leb 6 (Schema.count_owned user (p.tables s.conn)))) [
          | inl many ↦
              ground (arith, many, buy_ticket-too_many p R now draw id event user s (ground arith))
          | inr few ↦
              elim (Option-cases (first_row (some (Schema.select_info id (p.tables s.conn))))) [
                | inl missing ↦ ground (
                  arith,
                  few,
                  missing,
                  buy_ticket_unlisted p R now draw id event user s (ground arith) missing,
                )
                | inr (info, listed) ↦ listed_Described info (ground arith) listed
              ]
        ]
