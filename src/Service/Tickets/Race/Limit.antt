-- ===== src/Service/Tickets/Race/Limit.antt =====
-- How far purchases that run at once take a buyer above the limit.
use ticket_ist.Prelude.{
  ℕ, zero, suc, ◌+◌, ◌≤◌, ◌≡◌, ◌⊎◌, refl, inl, inr, false, Option, some, List, [], ◌∷◌, Bytes,
  arith, length, if◌then◌else◌, ap, Option-cases,
}
use ticket_ist.Prelude.Int.{ℤ, ◌==ℤ◌, ==ℤ_iff}
use ticket_ist.Platform.{Platform, compute_sha256}
use ticket_ist.Ticket.Format
use ticket_ist.Ticket.Code.{generate_validation_code}
use ticket_ist.Database.Laws.{IsReliable, run_update_answers}
use ticket_ist.Database.Rows.{length-where_rows-insert, length-where_rows-delete}
use ticket_ist.Database.Schema
use ticket_ist.Database.Schema.{Tables, TicketRow, has_owner, has_code}
use ticket_ist.Repository.Tickets
use ticket_ist.Repository.Tickets.Answers
use ticket_ist.Service.Tickets.Race.{
  Order, Purchase, waits, counts, finds, delists, adds, asks_resale, reads_old, ends_resale,
  removes_old, ended, ordered, advance, begin, take_turn, interleave, idle,
}

module _ (p : Platform) (R : IsReliable p.sql) (v : ℤ) where
  -- Whether a thread has counted the tickets of this buyer, and has not stored the new one yet.
  pend : Purchase p → ℕ
  pend (finds o) = if o.user_id ==ℤ v then 1 else 0
  pend (delists o info) = if o.user_id ==ℤ v then 1 else 0
  pend (adds o info) = if o.user_id ==ℤ v then 1 else 0
  pend waits = 0
  pend (counts o) = 0
  pend (asks_resale t) = 0
  pend (reads_old t) = 0
  pend (ends_resale t old) = 0
  pend (removes_old t old) = 0
  pend (ended r) = 0

  pending : List (Purchase p) → ℕ
  pending [] = 0
  pending (t ∷ ts) = pend t + pending ts

  abbrev owned : p.Conn → ℕ
  owned c = Schema.count_owned v (p.tables c)

  insert_count :
      (code hash info : Bytes) (u : ℤ) (t t' : Tables p.Price)
      → Schema.insert_ticket p.collate code hash info u t ≡ some t'
      → Schema.count_owned v t'
        ≤ (if u ==ℤ v then Schema.count_owned v t + 1 else Schema.count_owned v t)
  unfolding Schema.insert_ticket Schema.count_owned
  insert_count code hash info u t t' e =
      let row : TicketRow = record {
        validation_code = code;
        ticket_hash = hash;
        info = info;
        used = false;
        owner_id = u;
      } in
      ground (arith, e, length-where_rows-insert (has_owner v) t.ticket row)

  delete_info_count :
      (i : ℤ) (t t' : Tables p.Price)
      → Schema.delete_info i t ≡ some t'
      → Schema.count_owned v t' ≡ Schema.count_owned v t
  unfolding Schema.delete_info Schema.count_owned
  delete_info_count i t t' e = ground (arith, e)

  delete_resell_count :
      (i : ℤ) (t t' : Tables p.Price)
      → Schema.delete_resell i t ≡ some t'
      → Schema.count_owned v t' ≡ Schema.count_owned v t
  unfolding Schema.delete_resell Schema.count_owned
  delete_resell_count i t t' e = ground (arith, e)

  delete_ticket_count :
      (h : Bytes) (t t' : Tables p.Price)
      → Schema.delete_ticket p.collate h t ≡ some t'
      → Schema.count_owned v t' ≤ Schema.count_owned v t
  unfolding Schema.delete_ticket Schema.count_owned
  delete_ticket_count h t t' e =
      ground (arith, e, length-where_rows-delete (has_owner v) (has_code p.collate h) t.ticket)

  -- A call adds no ticket that was not pending, or it leaves the buyer with five at most.
  abbrev IsFair : Purchase p → p.Conn → Purchase p × p.Conn → Type 0
  IsFair t c (t', c') = (owned c' + pend t' ≤ owned c + pend t) ⊎ (owned c' ≤ 5)

  advance-IsFair : (t : Purchase p) (c : p.Conn) → IsFair t c (advance p t c)
  unfolding advance pend Tickets.add_new_ticket
  advance-IsFair waits c = inl (omega arith)
  advance-IsFair (counts o) c =
      ground (arith, Answers.get_nr_of_tickets_owned_lem p R c o.user_id, ==ℤ_iff o.user_id v)
  advance-IsFair (finds o) c =
      let (answers, same) = Answers.get_ticket_info_by_id_lem p R c o.ticket_id in
      inl (elim (Option-cases (Tickets.get_ticket_info_by_id p o.ticket_id c).0) [
        | inl unlisted ↦ ground (arith, same, unlisted)
        | inr (info, listed) ↦ ground (arith, same, listed)
      ])
  advance-IsFair (delists o info) c =
      let (gone, deletes) = Answers.make_ticket_unavailable_lem p R c o.ticket_id in
      let c' = (Tickets.make_ticket_unavailable p o.ticket_id c).1 in
      inl (ground (arith, gone, delete_info_count o.ticket_id (p.tables c) (p.tables c') deletes))
  advance-IsFair (adds o info) c =
      let ticket = ordered p o info in
      let code = compute_sha256 p (generate_validation_code o.draw 10) in
      let hash = compute_sha256 p (Format.serialize p.floats ticket) in
      let c' = (Tickets.add_new_ticket p code hash ticket.seat o.user_id c).1 in
      let u : Tables p.Price → Option (Tables p.Price) =
        Schema.insert_ticket p.collate code hash ticket.seat o.user_id in
      inl (
        ground (
          arith,
          run_update_answers p.sql R.laws u c,
          insert_count code hash ticket.seat o.user_id (p.tables c) (p.tables c'),
        ))
  advance-IsFair (asks_resale ticket) c =
      inl (ground (arith, Answers.is_ticket_in_resell_lem p R c ticket.ticket_id))
  advance-IsFair (reads_old ticket) c =
      inl (ground (arith, Answers.get_old_ticket_val_code_hash_lem p R c ticket.ticket_id))
  advance-IsFair (ends_resale ticket old) c =
      let c' = Tickets.remove_ticket_from_resell p ticket.ticket_id c in
      inl (
        ground (
          arith,
          delete_resell_count ticket.ticket_id (p.tables c) (p.tables c')
              (Answers.remove_ticket_from_resell_lem p R c ticket.ticket_id),
        ))
  advance-IsFair (removes_old ticket old) c =
      let c' = Tickets.remove_ticket p old c in
      inl (
        ground (
          arith,
          delete_ticket_count old (p.tables c) (p.tables c') (Answers.remove_ticket_lem p R c old),
        ))
  advance-IsFair (ended r) c = inl (omega arith)

  begin-pend : (o : Order) (t : Purchase p) → pend (begin p o t) ≡ pend t
  unfolding begin pend
  begin-pend o waits = refl
  begin-pend o (ended r) = refl
  begin-pend o (counts a) = refl
  begin-pend o (finds a) = refl
  begin-pend o (delists a info) = refl
  begin-pend o (adds a info) = refl
  begin-pend o (asks_resale ticket) = refl
  begin-pend o (reads_old ticket) = refl
  begin-pend o (ends_resale ticket old) = refl
  begin-pend o (removes_old ticket old) = refl

  pend_one : (t : Purchase p) → pend t ≤ 1
  unfolding pend
  pend_one waits = omega arith
  pend_one (counts a) = omega arith
  pend_one (finds a) = ground arith
  pend_one (delists a info) = ground arith
  pend_one (adds a info) = ground arith
  pend_one (asks_resale ticket) = omega arith
  pend_one (reads_old ticket) = omega arith
  pend_one (ends_resale ticket old) = omega arith
  pend_one (removes_old ticket old) = omega arith
  pend_one (ended r) = omega arith

  pending_all : (ts : List (Purchase p)) → pending ts ≤ length ts
  unfolding pending
  pending_all [] = omega arith
  pending_all (t ∷ ts) = ground (arith, pend_one t, pending_all ts)

  abbrev AreFair : List (Purchase p) → p.Conn → List (Purchase p) × p.Conn → Type 0
  AreFair ts c (ts', c') =
      (length ts' ≡ length ts) × ((owned c' + pending ts' ≤ owned c + pending ts) ⊎ (owned c' ≤ 5))

  take_turn-AreFair :
      (i : ℕ) (o : Order) (ts : List (Purchase p)) (c : p.Conn)
      → AreFair ts c (take_turn p i o ts c)
  unfolding take_turn pending
  take_turn-AreFair i o [] c = (refl, inl (omega arith))
  take_turn-AreFair zero o (t ∷ ts) c =
      (refl, ground (arith, begin-pend o t, advance-IsFair (begin p o t) c))
  take_turn-AreFair (suc i) o (t ∷ ts) c =
      let (same, fair) = take_turn-AreFair i o ts c in (ap suc same, ground (arith, fair))

  bounded :
      (turns : List (ℕ × Order)) (ts : List (Purchase p)) (c : p.Conn)
      → owned c + pending ts ≤ 5 + length ts
      → owned (interleave p turns ts c).1 ≤ 5 + length ts
  unfolding interleave
  bounded [] ts c h = omega arith
  bounded ((i, o) ∷ turns) ts c h =
      let (ts', c') = take_turn p i o ts c in
      let (same, fair) = take_turn-AreFair i o ts c in
      let rest = bounded turns ts' c' in ground (arith, h, same, fair, pending_all ts', rest)

  idle_lem : (n : ℕ) → (length (idle p n) ≡ n) × (pending (idle p n) ≡ 0)
  unfolding idle pending pend
  idle_lem zero = (refl, refl)
  idle_lem (suc n) = ground (arith, idle_lem n)

-- On a reliable server, with one thread or more, each making one purchase after another, and the threads
-- taking turns between any two statements of the database in any order, a buyer who had six tickets at
-- most has never more than five and one for each thread. With one thread that is the limit.
pub interleave_limit :
    (p : Platform)
    → IsReliable p.sql
    → (v : ℤ) (n : ℕ) (turns : List (ℕ × Order)) (c : p.Conn) → 1 ≤ n
    → Schema.count_owned v (p.tables c) ≤ 6
    → Schema.count_owned v (p.tables (interleave p turns (idle p n) c).1) ≤ 5 + n
interleave_limit p R v n turns c some_thread few =
    let (size, free) = idle_lem p R v n in
    let bound = bounded p R v turns (idle p n) c in
    ground (arith, size, free, bound, few, some_thread)
