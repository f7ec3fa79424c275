-- ===== src/Service/Users/Accounts.antt =====
-- `signUp` and `loginUser` on a reliable server.
use ticket_ist.Prelude.{
  ◌≡◌, refl, Bool, true, false, Option, none, some, [], ◌∷◌, ◌++◌, Bytes, arith, str_eq,
  str_eq_refl, Option-cases, inl, inr,
}
use ticket_ist.Prelude.Int.{pos, ◌+ℤ◌}
use ticket_ist.Platform.{Platform, compute_sha256}
use ticket_ist.Database.{first_row}
use ticket_ist.Database.Laws.{IsReliable, run_select-some, run_select_keeps, run_update-true}
use ticket_ist.Database.Rows.{where_rows-insert, where_rows-insert_other, any_row-none}
use ticket_ist.Database.Schema.{UserRow, Tables, same, insert_user, select_user}
use ticket_ist.Repository.Users
use ticket_ist.Repository.Users.{User}
use ticket_ist.Service.Users.{sign_up, login_user}

module _ (p : Platform) where
  abbrev pub has_name : Bytes → UserRow → Bool
  has_name n r = same p.collate r.username n

  -- The account of a name.
  abbrev pub account : Bytes → Tables p.Price → Option UserRow
  account n t = first_row (some (select_user p.collate n t))

  abbrev pub password_of : Option UserRow → Bytes → Bool
  password_of none h = false
  password_of (some r) h = str_eq r.password h

  abbrev pub user_of : Option UserRow → Option User
  user_of none = none
  user_of (some r) = some (record { id = r.id; username = r.username })

  abbrev pub new_row : Bytes → Bytes → Tables p.Price → UserRow
  new_row n pw t = record {
    id = t.next_user;
    username = n;
    is_validator = false;
    password = compute_sha256 p pw;
  }

  -- The tables with one more account.
  abbrev pub with_user : Bytes → Bytes → Tables p.Price → Tables p.Price
  with_user n pw t = record t {
    users = t.users ++ new_row n pw t ∷ [];
    next_user = t.next_user +ℤ pos 1;
  }

  insert_user-free :
      (n pw : Bytes) (t : Tables p.Price)
      → account n t ≡ none
      → insert_user p.collate n false (compute_sha256 p pw) t ≡ some (with_user n pw t)
  unfolding insert_user select_user
  insert_user-free n pw t free = rw (any_row-none (has_name n) t.users free) refl

  account-with_user :
      (n pw : Bytes) (t : Tables p.Price)
      → account n t ≡ none
      → account n (with_user n pw t) ≡ some (new_row n pw t)
  unfolding select_user
  account-with_user n pw t free =
      rw
        (where_rows-insert (has_name n) t.users (new_row n pw t)
          (any_row-none (has_name n) t.users free) (str_eq_refl (p.collate n)))
        refl

  account-with_user_other :
      (n pw m : Bytes) (t : Tables p.Price)
      → same p.collate n m ≡ false
      → account m (with_user n pw t) ≡ account m t
  unfolding select_user
  account-with_user_other n pw m t ne =
      rw (where_rows-insert_other (has_name m) t.users (new_row n pw t) ne) refl

  module _ (R : IsReliable p.sql) where
    login_user_lem :
        (n pw : Bytes) (c : p.Conn)
        → ((login_user p n pw c).0 ≡ password_of (account n (p.tables c)) (compute_sha256 p pw))
          × (p.tables (login_user p n pw c).1 ≡ p.tables c)
    unfolding login_user Users.check_password
    login_user_lem n pw c = (
      ground (arith, run_select-some p.sql R UserRow (select_user p.collate n) c),
      run_select_keeps p.sql R.laws UserRow (select_user p.collate n) c,
    )

    find_user_by_username_lem :
        (n : Bytes) (c : p.Conn)
        → ((Users.find_user_by_username p n c).0 ≡ user_of (account n (p.tables c)))
          × (p.tables (Users.find_user_by_username p n c).1 ≡ p.tables c)
    unfolding Users.find_user_by_username
    find_user_by_username_lem n c = (
      ground (arith, run_select-some p.sql R UserRow (select_user p.collate n) c),
      run_select_keeps p.sql R.laws UserRow (select_user p.collate n) c,
    )

    -- On a reliable server a name that is taken is refused, and no account changes.
    pub sign_up_taken :
        (n pw : Bytes) (c : p.Conn) (r : UserRow)
        → account n (p.tables c) ≡ some r
        → ((sign_up p n pw c).0 ≡ false) × (p.tables (sign_up p n pw c).1 ≡ p.tables c)
    unfolding sign_up
    sign_up_taken n pw c r taken = ground (arith, taken, find_user_by_username_lem n c)

    -- On a reliable server a name that is free gets an account with the hash of the password.
    pub sign_up_free :
        (n pw : Bytes) (c : p.Conn)
        → account n (p.tables c) ≡ none
        → ((sign_up p n pw c).0 ≡ true)
          × (p.tables (sign_up p n pw c).1 ≡ with_user n pw (p.tables c))
    unfolding sign_up Users.create_user
    sign_up_free n pw c free =
        let c1 = (Users.find_user_by_username p n c).1 in
        let u = insert_user p.collate n false (compute_sha256 p pw) in
        let (missing, same_tables) = find_user_by_username_lem n c in
        ground (
          arith,
          free,
          missing,
          run_update-true p.sql R u c1 (with_user n pw (p.tables c))
              (rw same_tables (insert_user-free n pw (p.tables c) free)),
        )

    -- On a reliable server a sign-up with a free name succeeds, and the new user can log in with
    -- exactly the passwords that have the same hash.
    pub login_user-sign_up :
        (n pw other : Bytes) (c : p.Conn)
        → account n (p.tables c) ≡ none
        → ((sign_up p n pw c).0 ≡ true)
          × ((login_user p n other (sign_up p n pw c).1).0
              ≡ str_eq (compute_sha256 p pw) (compute_sha256 p other))
    login_user-sign_up n pw other c free =
        let (done, tables) = sign_up_free n pw c free in
        (
          done,
          ground (
            arith,
            tables,
            login_user_lem n other (sign_up p n pw c).1,
            account-with_user n pw (p.tables c) free,
          ),
        )

    -- On a reliable server a sign-up, whether it succeeds or not, changes nothing for the log-ins
    -- under all names that the collation tells apart from its own.
    pub login_user-sign_up_other :
        (n pw m other : Bytes) (c : p.Conn)
        → same p.collate n m ≡ false
        → (login_user p m other (sign_up p n pw c).1).0 ≡ (login_user p m other c).0
    login_user-sign_up_other n pw m other c ne = elim (Option-cases (account n (p.tables c))) [
      | inl free ↦ ground (
        arith,
        sign_up_free n pw c free,
        login_user_lem m other (sign_up p n pw c).1,
        login_user_lem m other c,
        account-with_user_other n pw m (p.tables c) ne,
      )
      | inr (r, found) ↦ ground (
        arith,
        sign_up_taken n pw c r found,
        login_user_lem m other (sign_up p n pw c).1,
        login_user_lem m other c,
      )
    ]
