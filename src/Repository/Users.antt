-- ===== src/Repository/Users.antt =====
-- `class UserRepository`, common/src/Repositories/UserRepository.cpp.
use ticket_ist.Prelude.{Bool, false, Option, none, some, List, [], ◌∷◌, Bytes, str_eq}
use ticket_ist.Prelude.Int.{ℤ, negsuc}
use ticket_ist.Platform.{Platform}
use ticket_ist.Database.{run_select, run_update, first_row}
use ticket_ist.Database.Schema
use ticket_ist.Database.Schema.{UserRow, ValidatorRow}

-- `class User`, common/src/User/User.cpp, as far as a query of it fills it in.
pub record User : Type 0 where
  pub id : ℤ
  pub username : Bytes

abbrev pub named : UserRow → User
named row = record { id = row.id; username = row.username }

-- Every row of the query, with the password of the user beside.
unfoldable pub users_of : List UserRow → List (User × Bytes)
users_of [] = []
users_of (row ∷ rows) = (named row, row.password) ∷ users_of rows

module _ (p : Platform) where
  unfoldable pub create_user : Bytes → Bytes → p.Conn → Bool × p.Conn
  create_user username password =
      run_update p.sql (Schema.insert_user p.collate username false password)

  -- Where no row has the id, a user comes back all the same: it is as its constructor left it, with no name
  -- and `unset` for the id, which is not initialised.
  unfoldable pub get_user_by_id : ℤ → ℤ → p.Conn → Option User × p.Conn
  get_user_by_id unset i c =
      let (r, c') = run_select p.sql UserRow (Schema.select_user_by_id i) c in
      (
        elim r [
          | none ↦ none
          | some [] ↦ some (record { id = unset; username = [] })
          | some (row ∷ rows) ↦ some (named row)
        ],
        c',
      )

  unfoldable pub get_all_users : p.Conn → List (User × Bytes) × p.Conn
  unfolding users_of
  get_all_users c =
      let (r, c') = run_select p.sql UserRow Schema.select_users c in
      (elim r [ none ↦ [] | some rows ↦ users_of rows ], c')

  unfoldable pub find_user_by_username : Bytes → p.Conn → Option User × p.Conn
  find_user_by_username n c =
      let (r, c') = run_select p.sql UserRow (Schema.select_user p.collate n) c in
      (
        elim (first_row r) [
          | none ↦ none
          | some row ↦ some (record { id = row.id; username = row.username })
        ],
        c',
      )

  unfoldable pub check_password : Bytes → Bytes → p.Conn → Bool × p.Conn
  unfolding str_eq
  check_password n password c =
      let (r, c') = run_select p.sql UserRow (Schema.select_user p.collate n) c in
      (elim (first_row r) [ none ↦ false | some row ↦ str_eq row.password password ], c')

  unfoldable pub check_validator_password : Bytes → Bytes → p.Conn → Bool × p.Conn
  unfolding str_eq
  check_validator_password n password c =
      let (r, c') = run_select p.sql ValidatorRow (Schema.select_validator p.collate n) c in
      (elim (first_row r) [ none ↦ false | some row ↦ str_eq row.password password ], c')

  -- -1 where no user is found
  unfoldable pub get_user_id : Bytes → p.Conn → ℤ × p.Conn
  get_user_id n c =
      let (r, c') = run_select p.sql UserRow (Schema.select_user p.collate n) c in
      (elim (first_row r) [ none ↦ negsuc 0 | some row ↦ row.id ], c')
