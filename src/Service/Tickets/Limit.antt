-- ===== src/Service/Tickets/Limit.antt =====
-- The limit of six tickets, and the branches of `buyTicket` that refuse, on a reliable server.
use ticket_ist.Prelude.{
  ℕ, ◌+◌, ◌≤◌, ◌<◌, ◌≡◌, true, false, none, some, [], ◌∷◌, ◌++◌, arith, leb, Option-cases,
  Bool-cases, inl, inr, throw, if◌then◌else◌,
}
use ticket_ist.Prelude.Int.{ℤ, ◌==ℤ◌, ==ℤ_iff}
use ticket_ist.Platform.{Platform, compute_sha256}
use ticket_ist.Ticket.{TicketInfo, Tm}
use ticket_ist.Database.{first_row}
use ticket_ist.Database.Laws.{IsReliable, run_update-false}
use ticket_ist.Database.Rows.{length-where_rows-insert, length-where_rows-delete}
use ticket_ist.Database.Schema
use ticket_ist.Database.Schema.{Tables, any_row, has_code, has_owner}
use ticket_ist.Repository.Tickets
use ticket_ist.Repository.Tickets.Answers
use ticket_ist.Service.Tickets.{TicketService, buy_ticket, not_available, too_many}
use ticket_ist.Service.Tickets.Purchase.{
  code, bought, bought_row, after_purchase, buy_ticket-succeeds,
}

module _ (p : Platform) (R : IsReliable p.sql) (now : Tm) (draw : ℕ → ℕ) (id event user : ℤ)
    (s : TicketService p) where
  -- On a reliable server a buyer with six tickets or more is refused, and no table changes.
  pub buy_ticket-too_many :
      6 ≤ Schema.count_owned user (p.tables s.conn)
      → ((buy_ticket p now draw id event user s).0 ≡ throw too_many)
        × (p.tables (buy_ticket p now draw id event user s).1.conn ≡ p.tables s.conn)
  unfolding buy_ticket
  buy_ticket-too_many many =
      ground (arith, many, Answers.get_nr_of_tickets_owned_lem p R s.conn user)

  -- On a reliable server a ticket that is not listed is refused, and so is one that is listed for
  -- another event; no table changes.
  pub buy_ticket_unlisted :
      Schema.count_owned user (p.tables s.conn) < 6
      → first_row (some (Schema.select_info id (p.tables s.conn))) ≡ none
      → ((buy_ticket p now draw id event user s).0 ≡ throw not_available)
        × (p.tables (buy_ticket p now draw id event user s).1.conn ≡ p.tables s.conn)
  unfolding buy_ticket
  buy_ticket_unlisted few missing =
      let c1 = (Tickets.get_nr_of_tickets_owned p user s.conn).1 in
      ground (
        arith,
        few,
        missing,
        Answers.get_nr_of_tickets_owned_lem p R s.conn user,
        Answers.get_ticket_info_by_id_lem p R c1 id,
      )

  pub buy_ticket_elsewhere :
      (info : TicketInfo p.Price)
      → Schema.count_owned user (p.tables s.conn) < 6
      → first_row (some (Schema.select_info id (p.tables s.conn))) ≡ some info
      → (info.event_id ==ℤ event) ≡ false
      → ((buy_ticket p now draw id event user s).0 ≡ throw not_available)
        × (p.tables (buy_ticket p now draw id event user s).1.conn ≡ p.tables s.conn)
  unfolding buy_ticket
  buy_ticket_elsewhere info few listed ne =
      let c1 = (Tickets.get_nr_of_tickets_owned p user s.conn).1 in
      ground (
        arith,
        few,
        listed,
        ne,
        Answers.get_nr_of_tickets_owned_lem p R s.conn user,
        Answers.get_ticket_info_by_id_lem p R c1 id,
      )

  -- A code that is taken: the listing is gone, and no ticket is stored.
  buy_ticket_stale :
      (info : TicketInfo p.Price)
      → Schema.count_owned user (p.tables s.conn) < 6
      → first_row (some (Schema.select_info id (p.tables s.conn))) ≡ some info
      → (info.event_id ==ℤ event) ≡ true
      → any_row
          (has_code p.collate (compute_sha256 p (code p now draw id event user)))
          (p.tables s.conn).ticket
        ≡ true
      → (p.tables (buy_ticket p now draw id event user s).1.conn).ticket ≡ (p.tables s.conn).ticket
  unfolding buy_ticket Tickets.add_new_ticket Schema.insert_ticket Schema.delete_info
  buy_ticket_stale info few listed same taken =
      let c1 = (Tickets.get_nr_of_tickets_owned p user s.conn).1 in
      let c2 = (Tickets.get_ticket_info_by_id p id c1).1 in
      let c3 = (Tickets.make_ticket_unavailable p id c2).1 in
      let row = bought_row p now draw id event user info in
      ground (
        arith,
        few,
        listed,
        same,
        taken,
        Answers.get_nr_of_tickets_owned_lem p R s.conn user,
        Answers.get_ticket_info_by_id_lem p R c1 id,
        Answers.make_ticket_unavailable_lem p R c2 id,
        run_update-false p.sql R
            (Schema.insert_ticket p.collate row.validation_code row.ticket_hash row.info user) c3,
      )

  -- One more row makes one more ticket at most, and none for all other owners.
  count-after_purchase :
      (info : TicketInfo p.Price) (t : Tables p.Price) (v : ℤ)
      → Schema.count_owned v (after_purchase p now draw id event user info t)
        ≤ (if user ==ℤ v then Schema.count_owned v t + 1 else Schema.count_owned v t)
  unfolding Schema.count_owned
  count-after_purchase info t v =
      let row = bought_row p now draw id event user info in
      let more = length-where_rows-insert (has_owner v) t.ticket row in
      elim (Option-cases (
        first_row (
          some (
            Schema.select_resell (bought p now draw id event user info).ticket_id (record t {
              ticket_info = Schema.delete_rows (Schema.has_ticket_id id) t.ticket_info;
              ticket = t.ticket ++ row ∷ [];
            }))))) [
              | inl unsold ↦ ground (arith, unsold, more)
              | inr (r, resold) ↦ ground (
                arith,
                resold,
                more,
                length-where_rows-delete (has_owner v) (has_code p.collate r.hash_val_code)
                    (t.ticket ++ row ∷ []),
              )
            ]

  listed_limit :
      (v : ℤ)
      → Schema.count_owned v (p.tables s.conn) ≤ 6
      → (info : TicketInfo p.Price) → Schema.count_owned user (p.tables s.conn) < 6
      → first_row (some (Schema.select_info id (p.tables s.conn))) ≡ some info
      → Schema.count_owned v (p.tables (buy_ticket p now draw id event user s).1.conn) ≤ 6
  listed_limit v h info few listed = elim (Bool-cases (info.event_id ==ℤ event)) [
    | inr ne ↦ rw ((buy_ticket_elsewhere info few listed ne).1) h
    | inl same ↦
        elim (Bool-cases (
          any_row (has_code p.collate (compute_sha256 p (code p now draw id event user)))
            (p.tables s.conn).ticket)) [
              | inl taken ↦
                  unfold Schema.count_owned in rw (buy_ticket_stale info few listed same taken) h
              | inr fresh ↦
                  let (done, tables) =
                    buy_ticket-succeeds p now draw id event user R s info few listed
                      ((==ℤ_iff info.event_id event).0 same) fresh in
                  rw tables (
                    ground (
                      arith,
                      h,
                      few,
                      ==ℤ_iff user v,
                      count-after_purchase info (p.tables s.conn) v,
                    ))
            ]
  ]

  -- On a reliable server no purchase, whether it succeeds or not, takes anyone above six tickets.
  pub buy_ticket_limit :
      (v : ℤ)
      → Schema.count_owned v (p.tables s.conn) ≤ 6
      → Schema.count_owned v (p.tables (buy_ticket p now draw id event user s).1.conn) ≤ 6
  unfolding Schema.count_owned
  buy_ticket_limit v h = elim (Bool-cases (leb 6 (Schema.count_owned user (p.tables s.conn)))) [
    | inl many ↦ ground (arith, h, buy_ticket-too_many (ground arith))
    | inr few ↦ elim (Option-cases (first_row (some (Schema.select_info id (p.tables s.conn))))) [
      | inl missing ↦ ground (arith, h, buy_ticket_unlisted (ground arith) missing)
      | inr (info, listed) ↦ listed_limit v h info (ground arith) listed
    ]
  ]
