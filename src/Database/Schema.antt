-- ===== src/Database/Schema.antt =====
-- The tables of db/*.sql, and the statements of common/src/Repositories by what they mean.
use ticket_ist.Prelude.{
  ℕ, Bool, true, false, ◌||◌, Option, none, some, List, [], ◌∷◌, ◌++◌, Bytes, str_eq, if◌then◌else◌,
  length,
}
use ticket_ist.Prelude.Int.{ℤ, pos, ◌==ℤ◌, ◌+ℤ◌, leb_ℤ}
use ticket_ist.Ticket.{TicketInfo}

pub record EventRow : Type 0 where
  pub id : ℤ
  pub name : Bytes

pub record TicketRow : Type 0 where
  pub validation_code : Bytes
  pub ticket_hash : Bytes
  pub info : Bytes
  pub used : Bool
  pub owner_id : ℤ

pub record ResellRow : Type 0 where
  pub hash_val_code : Bytes
  pub ticket_id : ℤ

pub record UserRow : Type 0 where
  pub id : ℤ
  pub username : Bytes
  pub is_validator : Bool
  pub password : Bytes

pub record ValidatorRow : Type 0 where
  pub id : ℤ
  pub username : Bytes
  pub password : Bytes

-- The rows, and the next value of each AUTO_INCREMENT column that the program leaves to the server.
pub record Tables (Price : Type 0) : Type 0 where
  pub events : List EventRow
  pub ticket_info : List (TicketInfo Price)
  pub ticket : List TicketRow
  pub resell_tickets : List ResellRow
  pub users : List UserRow
  pub validators : List ValidatorRow
  pub next_event : ℤ
  pub next_ticket_info : ℤ
  pub next_user : ℤ

-- Rows by a test, in the order of the table: WHERE, and the rows that a DELETE leaves.
module _ {A : Type 0} where
  unfoldable pub where_rows : (A → Bool) → List A → List A
  where_rows test [] = []
  where_rows test (r ∷ rs) = let rest = where_rows test rs in if test r then r ∷ rest else rest

  unfoldable pub delete_rows : (A → Bool) → List A → List A
  delete_rows test [] = []
  delete_rows test (r ∷ rs) = let rest = delete_rows test rs in if test r then rest else r ∷ rest

  -- Whether a key is taken.
  unfoldable pub any_row : (A → Bool) → List A → Bool
  any_row test [] = false
  any_row test (r ∷ rs) = test r || any_row test rs

-- UPDATE ticket SET used = 1 on the rows of a test.
unfoldable pub use_rows : (TicketRow → Bool) → List TicketRow → List TicketRow
use_rows test [] = []
use_rows test (r ∷ rs) =
    let rest = use_rows test rs in if test r then record r { used = true } ∷ rest else r ∷ rest

abbrev pub has_owner : ℤ → TicketRow → Bool
has_owner u r = r.owner_id ==ℤ u

abbrev pub resells : ℤ → ResellRow → Bool
resells t r = r.ticket_id ==ℤ t

module _ {Price : Type 0} where
  abbrev pub has_ticket_id : ℤ → TicketInfo Price → Bool
  has_ticket_id t i = i.ticket_id ==ℤ t

  abbrev pub has_event_id : ℤ → TicketInfo Price → Bool
  has_event_id e i = i.event_id ==ℤ e

  -- SELECT COUNT(*) FROM ticket WHERE owner_id = ?
  unfoldable pub count_owned : ℤ → Tables Price → ℕ
  unfolding where_rows
  count_owned u t = length (where_rows (has_owner u) t.ticket)

  -- SELECT * FROM ticket_info WHERE ticketID = ?, and WHERE eventID = ?
  unfoldable pub select_info : ℤ → Tables Price → List (TicketInfo Price)
  unfolding where_rows
  select_info i t = where_rows (has_ticket_id i) t.ticket_info

  unfoldable pub select_event_infos : ℤ → Tables Price → List (TicketInfo Price)
  unfolding where_rows
  select_event_infos e t = where_rows (has_event_id e) t.ticket_info

  -- SELECT … FROM resell_tickets WHERE ticket_Id = ?
  unfoldable pub select_resell : ℤ → Tables Price → List ResellRow
  unfolding where_rows
  select_resell i t = where_rows (resells i) t.resell_tickets

  -- DELETE FROM ticket_info WHERE ticketID = ?
  unfoldable pub delete_info : ℤ → Tables Price → Option (Tables Price)
  unfolding delete_rows
  delete_info i t = some (record t { ticket_info = delete_rows (has_ticket_id i) t.ticket_info })

  -- TRUNCATE TABLE ticket_info, which starts the counter anew
  unfoldable pub truncate_info : Tables Price → Option (Tables Price)
  truncate_info t = some (record t { ticket_info = []; next_ticket_info = pos 1 })

  -- INSERT INTO ticket_info (ticketID, …) VALUES (?, …). The id is the primary key; a 0 asks the
  -- server for the next value, and a larger one moves the counter.
  unfoldable pub insert_info : TicketInfo Price → Tables Price → Option (Tables Price)
  unfolding any_row ◌+ℤ◌
  insert_info i t =
      let id = if i.ticket_id ==ℤ pos 0 then t.next_ticket_info else i.ticket_id in
      if any_row (has_ticket_id id) t.ticket_info
      then none
      else some (record t {
        ticket_info = t.ticket_info ++ record i { ticket_id = id } ∷ [];
        next_ticket_info = if leb_ℤ t.next_ticket_info id then id +ℤ pos 1 else t.next_ticket_info;
      })

  -- DELETE FROM resell_tickets WHERE ticket_Id = ?
  unfoldable pub delete_resell : ℤ → Tables Price → Option (Tables Price)
  unfolding delete_rows
  delete_resell i t = some (record t { resell_tickets = delete_rows (resells i) t.resell_tickets })

  -- SELECT … FROM users WHERE id = ?
  unfoldable pub select_user_by_id : ℤ → Tables Price → List UserRow
  unfolding where_rows
  select_user_by_id i t = where_rows (λ (r : UserRow). r.id ==ℤ i) t.users

  -- SELECT id, username, password FROM users
  unfoldable pub select_users : Tables Price → List UserRow
  select_users t = t.users

module _ (collate : Bytes → Bytes) where
  -- `column = ?` for texts
  abbrev pub same : Bytes → Bytes → Bool
  same a b = str_eq (collate a) (collate b)

  abbrev pub has_code : Bytes → TicketRow → Bool
  has_code h r = same r.validation_code h

module _ {Price : Type 0} (collate : Bytes → Bytes) where
  -- SELECT … FROM ticket WHERE validation_code = ?
  unfoldable pub select_ticket : Bytes → Tables Price → List TicketRow
  unfolding where_rows
  select_ticket h t = where_rows (has_code collate h) t.ticket

  -- SELECT … FROM users WHERE username = ?
  unfoldable pub select_user : Bytes → Tables Price → List UserRow
  unfolding where_rows
  select_user n t = where_rows (λ r. same collate r.username n) t.users

  -- SELECT password FROM validators WHERE username = ?
  unfoldable pub select_validator : Bytes → Tables Price → List ValidatorRow
  unfolding where_rows
  select_validator n t = where_rows (λ r. same collate r.username n) t.validators

  -- SELECT * FROM events WHERE name = ?
  unfoldable pub select_event : Bytes → Tables Price → List EventRow
  unfolding where_rows
  select_event n t = where_rows (λ r. same collate r.name n) t.events

  -- INSERT INTO ticket (validation_code, ticket_hash, info, owner_id) VALUES (?, ?, ?, ?);
  -- `used` has the default 0, and the code is the primary key.
  unfoldable pub insert_ticket : Bytes → Bytes → Bytes → ℤ → Tables Price → Option (Tables Price)
  unfolding any_row
  insert_ticket code hash info owner t =
      if any_row (has_code collate code) t.ticket
      then none
      else some (record t {
        ticket =
            t.ticket
            ++ record {
              validation_code = code;
              ticket_hash = hash;
              info = info;
              used = false;
              owner_id = owner;
            }
              ∷ [];
      })

  -- DELETE FROM ticket WHERE validation_code = ?
  unfoldable pub delete_ticket : Bytes → Tables Price → Option (Tables Price)
  unfolding delete_rows
  delete_ticket h t = some (record t { ticket = delete_rows (has_code collate h) t.ticket })

  -- UPDATE ticket SET used = 1 WHERE validation_code = ?
  unfoldable pub use_ticket : Bytes → Tables Price → Option (Tables Price)
  unfolding use_rows
  use_ticket h t = some (record t { ticket = use_rows (has_code collate h) t.ticket })

  -- INSERT INTO resell_tickets (hash_val_code, ticket_Id) VALUES (?, ?)
  unfoldable pub insert_resell : Bytes → ℤ → Tables Price → Option (Tables Price)
  unfolding any_row
  insert_resell h i t =
      if any_row (λ (r : ResellRow). same collate r.hash_val_code h) t.resell_tickets
      then none
      else some (record t {
        resell_tickets = t.resell_tickets ++ record { hash_val_code = h; ticket_id = i } ∷ [];
      })

  -- INSERT INTO users (username, isValidator, password) VALUES (?, ?, ?); the name is unique.
  unfoldable pub insert_user : Bytes → Bool → Bytes → Tables Price → Option (Tables Price)
  unfolding any_row ◌+ℤ◌
  insert_user name is_validator password t =
      if any_row (λ (r : UserRow). same collate r.username name) t.users
      then none
      else some (record t {
        users =
            t.users
            ++ record {
              id = t.next_user;
              username = name;
              is_validator = is_validator;
              password = password;
            }
              ∷ [];
        next_user = t.next_user +ℤ pos 1;
      })

  -- INSERT INTO events (name) VALUES (?); the name is unique.
  unfoldable pub insert_event : Bytes → Tables Price → Option (Tables Price)
  unfolding any_row ◌+ℤ◌
  insert_event name t =
      if any_row (λ (r : EventRow). same collate r.name name) t.events
      then none
      else some (record t {
        events = t.events ++ record { id = t.next_event; name = name } ∷ [];
        next_event = t.next_event +ℤ pos 1;
      })
