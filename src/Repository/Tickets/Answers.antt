-- ===== src/Repository/Tickets/Answers.antt =====
-- What the methods of `TicketRepository` return and leave in the tables, on a reliable server.
use ticket_ist.Prelude.{ℕ, ◌≡◌, refl, Bool, true, false, Option, none, some, [], ◌∷◌, Bytes, arith}
use ticket_ist.Prelude.Int.{ℤ}
use ticket_ist.Platform.{Platform}
use ticket_ist.Ticket.{TicketInfo}
use ticket_ist.Database.{first_row}
use ticket_ist.Database.Laws.{IsReliable, run_select-some, run_select_keeps, run_update-true}
use ticket_ist.Database.Schema
use ticket_ist.Database.Schema.{TicketRow, ResellRow, Tables}
use ticket_ist.Repository.Tickets

-- What the methods take of the first row of a query.
abbrev pub info_and_used : Option TicketRow → Option (Bytes × Bool)
info_and_used none = none
info_and_used (some r) = some (r.info, r.used)

abbrev pub hash_of : Option TicketRow → Option Bytes
hash_of none = none
hash_of (some r) = some r.ticket_hash

abbrev pub is_some : {A : Type 0} → Option A → Bool
is_some none = false
is_some (some _) = true

abbrev pub code_of : Option ResellRow → Bytes
code_of none = []
code_of (some r) = r.hash_val_code

module _ (p : Platform) (R : IsReliable p.sql) (c : p.Conn) where
  pub get_nr_of_tickets_owned_lem :
      (u : ℤ)
      → ((Tickets.get_nr_of_tickets_owned p u c).0 ≡ Schema.count_owned u (p.tables c))
        × (p.tables (Tickets.get_nr_of_tickets_owned p u c).1 ≡ p.tables c)
  unfolding Tickets.get_nr_of_tickets_owned
  get_nr_of_tickets_owned_lem u = (
    ground (arith, run_select-some p.sql R ℕ (λ t. Schema.count_owned u t ∷ []) c),
    run_select_keeps p.sql R.laws ℕ (λ t. Schema.count_owned u t ∷ []) c,
  )

  pub get_ticket_info_by_id_lem :
      (i : ℤ)
      → ((Tickets.get_ticket_info_by_id p i c).0
          ≡ first_row (some (Schema.select_info i (p.tables c))))
        × (p.tables (Tickets.get_ticket_info_by_id p i c).1 ≡ p.tables c)
  unfolding Tickets.get_ticket_info_by_id
  get_ticket_info_by_id_lem i = (
    ground (arith, run_select-some p.sql R (TicketInfo p.Price) (Schema.select_info i) c),
    run_select_keeps p.sql R.laws (TicketInfo p.Price) (Schema.select_info i) c,
  )

  pub exists_ticket_with_validation_code_lem :
      (h : Bytes)
      → ((Tickets.exists_ticket_with_validation_code p h c).0
          ≡ info_and_used (first_row (some (Schema.select_ticket p.collate h (p.tables c)))))
        × (p.tables (Tickets.exists_ticket_with_validation_code p h c).1 ≡ p.tables c)
  unfolding Tickets.exists_ticket_with_validation_code
  exists_ticket_with_validation_code_lem h = (
    ground (arith, run_select-some p.sql R TicketRow (Schema.select_ticket p.collate h) c),
    run_select_keeps p.sql R.laws TicketRow (Schema.select_ticket p.collate h) c,
  )

  pub get_ticket_hash_by_validation_code_lem :
      (h : Bytes)
      → ((Tickets.get_ticket_hash_by_validation_code p h c).0
          ≡ hash_of (first_row (some (Schema.select_ticket p.collate h (p.tables c)))))
        × (p.tables (Tickets.get_ticket_hash_by_validation_code p h c).1 ≡ p.tables c)
  unfolding Tickets.get_ticket_hash_by_validation_code
  get_ticket_hash_by_validation_code_lem h = (
    ground (arith, run_select-some p.sql R TicketRow (Schema.select_ticket p.collate h) c),
    run_select_keeps p.sql R.laws TicketRow (Schema.select_ticket p.collate h) c,
  )

  pub is_ticket_in_resell_lem :
      (i : ℤ)
      → ((Tickets.is_ticket_in_resell p i c).0
          ≡ is_some (first_row (some (Schema.select_resell i (p.tables c)))))
        × (p.tables (Tickets.is_ticket_in_resell p i c).1 ≡ p.tables c)
  unfolding Tickets.is_ticket_in_resell
  is_ticket_in_resell_lem i = (
    ground (arith, run_select-some p.sql R ResellRow (Schema.select_resell i) c),
    run_select_keeps p.sql R.laws ResellRow (Schema.select_resell i) c,
  )

  pub get_old_ticket_val_code_hash_lem :
      (i : ℤ)
      → ((Tickets.get_old_ticket_val_code_hash p i c).0
          ≡ code_of (first_row (some (Schema.select_resell i (p.tables c)))))
        × (p.tables (Tickets.get_old_ticket_val_code_hash p i c).1 ≡ p.tables c)
  unfolding Tickets.get_old_ticket_val_code_hash
  get_old_ticket_val_code_hash_lem i = (
    ground (arith, run_select-some p.sql R ResellRow (Schema.select_resell i) c),
    run_select_keeps p.sql R.laws ResellRow (Schema.select_resell i) c,
  )

  -- A DELETE or an UPDATE never fails here.
  pub set_ticket_in_use_lem :
      (h : Bytes)
      → Schema.use_ticket p.collate h (p.tables c)
        ≡ some (p.tables (Tickets.set_ticket_in_use p h c))
  unfolding Tickets.set_ticket_in_use Schema.use_ticket
  set_ticket_in_use_lem h =
      let (done, same) = run_update-true p.sql R (Schema.use_ticket p.collate h) c _ refl in
      rw same refl

  -- A DELETE or an UPDATE never fails here.
  pub remove_ticket_from_resell_lem :
      (i : ℤ)
      → Schema.delete_resell i (p.tables c)
        ≡ some (p.tables (Tickets.remove_ticket_from_resell p i c))
  unfolding Tickets.remove_ticket_from_resell Schema.delete_resell
  remove_ticket_from_resell_lem i =
      let (done, same) = run_update-true p.sql R (Schema.delete_resell i) c _ refl in rw same refl

  -- A DELETE or an UPDATE never fails here.
  pub remove_ticket_lem :
      (h : Bytes)
      → Schema.delete_ticket p.collate h (p.tables c)
        ≡ some (p.tables (Tickets.remove_ticket p h c))
  unfolding Tickets.remove_ticket Schema.delete_ticket
  remove_ticket_lem h =
      let (done, same) = run_update-true p.sql R (Schema.delete_ticket p.collate h) c _ refl in
      rw same refl

  pub make_ticket_unavailable_lem :
      (i : ℤ)
      → ((Tickets.make_ticket_unavailable p i c).0 ≡ true)
        × (Schema.delete_info i (p.tables c)
            ≡ some (p.tables (Tickets.make_ticket_unavailable p i c).1))
  unfolding Tickets.make_ticket_unavailable Schema.delete_info
  make_ticket_unavailable_lem i =
      let (done, same) = run_update-true p.sql R (Schema.delete_info i) c _ refl in
      (done, rw same refl)

  pub add_new_ticket_lem :
      (code hash info : Bytes) (u : ℤ) (t : Tables p.Price)
      → Schema.insert_ticket p.collate code hash info u (p.tables c) ≡ some t
      → ((Tickets.add_new_ticket p code hash info u c).0 ≡ true)
        × (p.tables (Tickets.add_new_ticket p code hash info u c).1 ≡ t)
  unfolding Tickets.add_new_ticket
  add_new_ticket_lem code hash info u t h =
      run_update-true p.sql R (Schema.insert_ticket p.collate code hash info u) c t h
