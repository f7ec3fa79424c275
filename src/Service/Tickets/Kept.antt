-- ===== src/Service/Tickets/Kept.antt =====
-- What the operations of the services leave alone of the tickets that are owned.
use ticket_ist.Prelude.{
  ◌≡◌, refl, ap, Bool, false, some, List, [], ◌∷◌, Bytes, arith, length, Option-cases, inl, inr,
  Result, ok, throw, Exception, ◌⊎◌,
}
use ticket_ist.Prelude.Int.{ℤ}
use ticket_ist.Platform.{Platform, compute_sha256}
use ticket_ist.Ticket.{TicketInfo}
use ticket_ist.Ticket.Format
use ticket_ist.Database.{run_select, run_update}
use ticket_ist.Database.Laws.{SqlLaws, IsReliable, run_select_keeps, run_update_answers}
use ticket_ist.Database.Schema
use ticket_ist.Database.Schema.{
  TicketRow, EventRow, UserRow, ValidatorRow, Tables, where_rows, use_rows, has_owner, has_code,
}
use ticket_ist.Repository.Tickets
use ticket_ist.Repository.Users as Repository
use ticket_ist.Repository.Events
use ticket_ist.Service.Users
use ticket_ist.Service.Users.{sign_up, login_user, login_validator}
use ticket_ist.Service.Events.{EventService, get_event_by_name}
use ticket_ist.Service.Tickets.{
  TicketService, validate_ticket, check_integrity, sell_ticket,
  get_all_available_tickets_by_event_id,
}
use ticket_ist.Service.Tickets.Resale.{relisted}
use ticket_ist.Service.Tickets.Validation.{stored, validate_ticket-admission}

result_cases :
    {A : Type 0} (r : Result A) → ((a : A) × (r ≡ ok a)) ⊎ ((e : Exception) × (r ≡ throw e))
result_cases (ok a) = inl (a, refl)
result_cases (throw e) = inr (e, refl)

module _ (p : Platform) where
  -- The owners of the tickets are as before: everyone owns as many.
  abbrev pub IsKept : Tables p.Price → Tables p.Price → Type 0
  IsKept t t' = (v : ℤ) → Schema.count_owned v t' ≡ Schema.count_owned v t

  pub same_tickets : (t t' : Tables p.Price) → t'.ticket ≡ t.ticket → IsKept t t'
  unfolding Schema.count_owned
  same_tickets t t' h v = ap (λ rows. length (where_rows (has_owner v) rows)) h

  pub same_tables : (t t' : Tables p.Price) → t' ≡ t → IsKept t t'
  same_tables t t' h v = ap (Schema.count_owned v) h

  insert_user-ticket :
      (n h : Bytes) (b : Bool) (t t' : Tables p.Price)
      → Schema.insert_user p.collate n b h t ≡ some t'
      → t'.ticket ≡ t.ticket
  unfolding Schema.insert_user
  insert_user-ticket n h b t t' e = ground (arith, e)

  insert_info-ticket :
      (i : TicketInfo p.Price) (t t' : Tables p.Price)
      → Schema.insert_info i t ≡ some t'
      → t'.ticket ≡ t.ticket
  unfolding Schema.insert_info
  insert_info-ticket i t t' e = ground (arith, e)

  insert_resell-ticket :
      (h : Bytes) (i : ℤ) (t t' : Tables p.Price)
      → Schema.insert_resell p.collate h i t ≡ some t'
      → t'.ticket ≡ t.ticket
  unfolding Schema.insert_resell
  insert_resell-ticket h i t t' e = ground (arith, e)

  length-where_rows-use :
      (test : TicketRow → Bool) (v : ℤ) (xs : List TicketRow)
      → length (where_rows (has_owner v) (use_rows test xs)) ≡ length (where_rows (has_owner v) xs)
  unfolding where_rows use_rows
  length-where_rows-use test v [] = refl
  length-where_rows-use test v (x ∷ xs) = ground (arith, length-where_rows-use test v xs)

  module _ (L : SqlLaws p.sql) where
    pub sign_up-IsKept :
        (n pw : Bytes) (c : p.Conn) → (p.tables (sign_up p n pw c).1).ticket ≡ (p.tables c).ticket
    unfolding sign_up Repository.find_user_by_username Repository.create_user
    sign_up-IsKept n pw c =
        let q = Schema.select_user {Price = p.Price} p.collate n in
        let h = compute_sha256 p pw in
        let c1 = (run_select p.sql UserRow q c).1 in
        let u = Schema.insert_user p.collate n false h in
        let c2 = (run_update p.sql u c1).1 in
        ground (
          arith,
          run_select_keeps p.sql L UserRow q c,
          run_update_answers p.sql L u c1,
          insert_user-ticket n h false (p.tables c1) (p.tables c2),
        )

    pub check_integrity_tables :
        (code claim : Bytes) (s : TicketService p)
        → p.tables (check_integrity p code claim s).1.conn ≡ p.tables s.conn
    unfolding check_integrity Tickets.get_ticket_hash_by_validation_code
    check_integrity_tables code claim s = ground (
      arith,
      run_select_keeps p.sql L TicketRow
          (Schema.select_ticket {Price = p.Price} p.collate (compute_sha256 p code)) s.conn,
    )

    pub login_user_tables :
        (n pw : Bytes) (c : p.Conn) → p.tables (login_user p n pw c).1 ≡ p.tables c
    unfolding login_user Repository.check_password
    login_user_tables n pw c =
        run_select_keeps p.sql L UserRow (Schema.select_user {Price = p.Price} p.collate n) c

    pub login_validator_tables :
        (n pw : Bytes) (c : p.Conn) → p.tables (login_validator p n pw c).1 ≡ p.tables c
    unfolding login_validator Repository.check_validator_password
    login_validator_tables n pw c =
        run_select_keeps p.sql L ValidatorRow
          (Schema.select_validator {Price = p.Price} p.collate n) c

    pub get_user_id_tables :
        (n : Bytes) (c : p.Conn) → p.tables (Users.get_user_id p n c).1 ≡ p.tables c
    unfolding Users.get_user_id Repository.get_user_id
    get_user_id_tables n c = ground (
      arith,
      run_select_keeps p.sql L UserRow (Schema.select_user {Price = p.Price} p.collate n) c,
    )

    pub get_event_by_name_tables :
        (n : Bytes) (s : EventService p)
        → p.tables (get_event_by_name p n s).1.conn ≡ p.tables s.conn
    unfolding get_event_by_name Events.get_event_by_name
    get_event_by_name_tables n s = ground (
      arith,
      run_select_keeps p.sql L EventRow (Schema.select_event {Price = p.Price} p.collate n) s.conn,
    )

    pub get_all_available_tables :
        (e : ℤ) (s : TicketService p)
        → p.tables (get_all_available_tickets_by_event_id p e s).1.conn ≡ p.tables s.conn
    unfolding get_all_available_tickets_by_event_id Tickets.get_all_tickets_from_event_id
    get_all_available_tables e s =
        run_select_keeps p.sql L (TicketInfo p.Price) (Schema.select_event_infos e) s.conn

    -- What follows the reading of the ticket.
    pub sell_ticket-ticket :
        (text : Bytes) (price : p.Price) (s : TicketService p)
        → (p.tables (sell_ticket p text price s).1.conn).ticket ≡ (p.tables s.conn).ticket
    unfolding sell_ticket Tickets.get_ticket_hash_by_validation_code Tickets.add_ticket_info
        Tickets.add_ticket_to_resell
    sell_ticket-ticket text price s = elim (result_cases (Format.deserialize p.floats text)) [
      | inr (e, bad) ↦ ground (arith, bad)
      | inl (t, reads) ↦
          let h = compute_sha256 p t.validation_code in
          let q = Schema.select_ticket {Price = p.Price} p.collate h in
          let i = relisted p t price in
          let c1 = (run_select p.sql TicketRow q s.conn).1 in
          let c2 = (run_update p.sql (Schema.insert_info i) c1).1 in
          let u = Schema.insert_resell p.collate h t.ticket_id in
          let c3 = (run_update p.sql u c2).1 in
          ground (
            arith,
            reads,
            run_select_keeps p.sql L TicketRow q s.conn,
            run_update_answers p.sql L (Schema.insert_info i) c1,
            insert_info-ticket i (p.tables c1) (p.tables c2),
            run_update_answers p.sql L u c2,
            insert_resell-ticket h t.ticket_id (p.tables c2) (p.tables c3),
          )
    ]

  pub validate_ticket-IsKept :
      IsReliable p.sql
      → (code : Bytes) (s : TicketService p)
      → IsKept (p.tables s.conn) (p.tables (validate_ticket p code s).1.conn)
  unfolding Schema.count_owned
  validate_ticket-IsKept R code s v =
      let t = p.tables s.conn in
      let (said, left) = validate_ticket-admission p R code s in
      let rows = length-where_rows-use (has_code p.collate (compute_sha256 p code)) v t.ticket in
      rw left (elim (Option-cases (stored p code t)) [
        | inl absent ↦ ground (arith, absent)
        | inr (r, found) ↦ ground (arith, found, rows)
      ])
