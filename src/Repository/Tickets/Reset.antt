-- ===== src/Repository/Tickets/Reset.antt =====
-- What `resetTickets` leaves on a reliable server.
use ticket_ist.Prelude.{
  ℕ, zero, suc, ◌+◌, ◌-◌, ◌≤◌, ◌≡◌, refl, ap, ◌∙◌, Bool, true, false, ◌||◌, Option, some, List, [],
  ◌∷◌, ◌++◌, arith, length, ltb, if◌then◌else◌,
}
use mathlib.Core.Path.{subst}
use ticket_ist.Prelude.Int.{ℤ, pos, ◌+ℤ◌, ◌==ℤ◌, ==ℤ_iff}
use ticket_ist.Platform.{Platform}
use ticket_ist.Ticket.{TicketInfo}
use ticket_ist.Database.Laws.{IsReliable, run_update-true}
use ticket_ist.Database.Rows.{length-where_rows-insert}
use ticket_ist.Database.Schema
use ticket_ist.Database.Schema.{Tables, any_row, where_rows, has_ticket_id, has_event_id}
use ticket_ist.Repository.Tickets.{
  drawn_info, insert_tickets, insert_events, delete_all_tickets, reset_tickets,
}

any_row-insert :
    {A : Type 0} (test : A → Bool) (xs : List A) (r : A)
    → any_row test (xs ++ r ∷ []) ≡ (any_row test xs || test r)
unfolding any_row
any_row-insert test [] r = ground arith
any_row-insert test (x ∷ xs) r = ground (arith, any_row-insert test xs r)

-- The counter of ids is at `n`, and no id from there on is taken.
pub record IsOpen {Price : Type 0} (n : ℕ) (t : Tables Price) : Type 0 where
  pub counter : t.next_ticket_info ≡ pos n
  pub free : (m : ℕ) → n ≤ m → any_row (has_ticket_id (pos m)) t.ticket_info ≡ false

module _ (p : Platform) (R : IsReliable p.sql) (draw : ℕ → ℕ) where
  -- The tables with one more row.
  abbrev numbered : ℕ → ℕ → ℕ → TicketInfo p.Price
  numbered k event n = record (drawn_info p draw k event) { ticket_id = pos n }

  abbrev with_row : ℕ → ℕ → ℕ → Tables p.Price → Tables p.Price
  with_row k event n t = record t {
    ticket_info = t.ticket_info ++ numbered k event n ∷ [];
    next_ticket_info = pos n +ℤ pos 1;
  }

  insert_info-drawn :
      (k event n : ℕ) (t : Tables p.Price)
      → IsOpen n t
      → Schema.insert_info (drawn_info p draw k event) t ≡ some (with_row k event n t)
  unfolding Schema.insert_info
  insert_info-drawn k event n t open_ = ground (arith, open_.counter, open_.free n (omega arith))

  with_row-IsOpen :
      (k event n : ℕ) (t : Tables p.Price) → IsOpen n t → IsOpen (n + 1) (with_row k event n t)
  unfolding ◌+ℤ◌
  with_row-IsOpen k event n t open_ = record {
    counter = ground arith;
    free = λ m h.
        any_row-insert (has_ticket_id (pos m)) t.ticket_info (numbered k event n)
        ∙ ground (arith, h, open_.free m (omega (arith, h)), ==ℤ_iff (pos n) (pos m));
  }

  listed : ℤ → Tables p.Price → ℕ
  listed e t = length (where_rows (has_event_id e) t.ticket_info)

  listed-with_row :
      (e : ℤ) (k event n : ℕ) (t : Tables p.Price)
      → listed e (with_row k event n t) ≡ (if pos event ==ℤ e then listed e t + 1 else listed e t)
  unfolding listed
  listed-with_row e k event n t =
      length-where_rows-insert (has_event_id e) t.ticket_info (numbered k event n)

  executed :
      (u : Tables p.Price → Option (Tables p.Price)) (c : p.Conn) (t : Tables p.Price)
      → u (p.tables c) ≡ some t
      → ((p.execute u c).0 ≡ true) × (p.tables (p.execute u c).1 ≡ t)
  executed u c t h = ground (arith, h, R.executes u c t h, R.laws.execute_answers u c)

  -- The loops run to their ends, and list so many more tickets of each event.
  insert_tickets_lem :
      (k event left n : ℕ) (c : p.Conn)
      → IsOpen n (p.tables c)
      → let after = insert_tickets p draw k event left c in
        (after.0 ≡ true)
        × IsOpen (n + left) (p.tables after.1)
        × ((e : ℤ)
            → listed e (p.tables after.1)
              ≡ (if pos event ==ℤ e then listed e (p.tables c) + left else listed e (p.tables c)))
  unfolding insert_tickets
  insert_tickets_lem k event zero n c open_ =
      (refl, subst (λ m. IsOpen m (p.tables c)) (omega arith) open_, λ e. ground arith)
  insert_tickets_lem k event (suc left) n c open_ =
      let u = Schema.insert_info (drawn_info p draw k event) in
      let t = with_row k event n (p.tables c) in
      let c' = (p.execute u c).1 in
      let (done, same) = executed u c t (insert_info-drawn k event n (p.tables c) open_) in
      let open' : IsOpen (n + 1) (p.tables c') =
        rw same (with_row-IsOpen k event n (p.tables c) open_) in
      let (ends, open'', counts) = insert_tickets_lem (k + 3) event left (n + 1) c' open' in
      rw done (
        ends,
        subst (λ m. IsOpen m (p.tables (insert_tickets p draw (k + 3) event left c').1))
            (omega arith) open'',
        λ e.
            ground (arith, counts e, ap (listed e) same ∙ listed-with_row e k event n (p.tables c)),
      )

  insert_events_lem :
      (k left n : ℕ) (c : p.Conn)
      → left ≤ 4
      → IsOpen n (p.tables c)
      → (e : ℕ) → e ≤ 4
      → listed (pos e) (p.tables (insert_events p draw k left c).1) ≡ (
          if ltb (4 - left) e
          then listed (pos e) (p.tables c) + 20
          else listed (pos e) (p.tables c))
  unfolding insert_events
  insert_events_lem k zero n c few open_ e h = ground (arith, h)
  insert_events_lem k (suc left) n c few open_ e h =
      let c' = (insert_tickets p draw k (4 - left) 20 c).1 in
      let (ends, open', counts) = insert_tickets_lem k (4 - left) 20 n c open_ in
      let rest = insert_events_lem (k + 60) left (n + 20) c' (omega (arith, few)) open' e h in
      rw ends (ground (arith, few, h, rest, counts (pos e), ==ℤ_iff (pos (4 - left)) (pos e)))

  truncated-IsOpen :
      (t : Tables p.Price) → IsOpen 1 (record t { ticket_info = []; next_ticket_info = pos 1 })
  unfolding any_row
  truncated-IsOpen t = record { counter = refl; free = λ m h. refl }

  emptied :
      (c : p.Conn)
      → p.tables (delete_all_tickets p c)
        ≡ record (p.tables c) { ticket_info = []; next_ticket_info = pos 1 }
  unfolding delete_all_tickets Schema.truncate_info
  emptied c = (run_update-true p.sql R Schema.truncate_info c _ refl).1

  -- On a reliable server a reset lists twenty tickets for each of the events 1 to 4, whatever is drawn
  -- and whatever was listed before.
  pub reset_tickets-select_event_infos :
      (c : p.Conn) (e : ℕ)
      → 1 ≤ e
      → e ≤ 4
      → length (Schema.select_event_infos (pos e) (p.tables (reset_tickets p draw c))) ≡ 20
  unfolding reset_tickets Schema.select_event_infos listed where_rows
  reset_tickets-select_event_infos c e low high =
      let c' = delete_all_tickets p c in
      let open_ : IsOpen 1 (p.tables c') = rw (emptied c) (truncated-IsOpen (p.tables c)) in
      let none_ : listed (pos e) (p.tables c') ≡ 0 = rw (emptied c) refl in
      let filled = insert_events_lem 0 4 1 c' (omega arith) open_ e high in
      rw (R.always_valid c') (ground (arith, low, none_, filled))
