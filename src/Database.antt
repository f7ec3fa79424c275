-- ===== src/Database.antt =====
-- The MySQL database behind `sql::Connection`, db/*.sql and common/src/Repositories/Repository.cpp.
-- The server and its connector are a parameter; a statement of the program is given by what its
-- text means for the tables.
pub mod Schema
pub mod Laws
pub mod Rows
use ticket_ist.Prelude.{Bool, false, Option, none, some, List, [], ◌∷◌, Bytes, if◌then◌else◌}
use ticket_ist.Database.Schema.{Tables}

-- The server with the connection to it. `select` runs a query, and is `none` where it throws a
-- `sql::SQLException`; `execute` runs a statement that changes the tables, and is false where it
-- throws. A statement that breaks a key is `none`. `collate` gives texts that the collation of the
-- tables identifies one key.
pub record Sql (Price : Type 0) : Type 1 where
  pub Conn : Type 0
  pub tables : Conn → Tables Price
  pub is_valid : Conn → Bool
  pub collate : Bytes → Bytes
  pub select : (A : Type 0) → (Tables Price → List A) → Conn → Option (List A) × Conn
  pub execute : (Tables Price → Option (Tables Price)) → Conn → Bool × Conn

-- `if (res->next()) …` on the rows of a query, where a failure is no row.
abbrev pub first_row : {A : Type 0} → Option (List A) → Option A
first_row none = none
first_row (some []) = none
first_row (some (r ∷ rs)) = some r

module _ {Price : Type 0} (S : Sql Price) where
  -- `if (conn && conn->isValid()) { … executeQuery() … }` inside the `try` of a repository method;
  -- `none` is a connection that is not valid, or an exception that the method catches.
  unfoldable pub run_select :
      (A : Type 0) → (Tables Price → List A) → S.Conn → Option (List A) × S.Conn
  run_select A q c = if S.is_valid c then S.select A q c else (none, c)

  -- The same for a statement that changes the tables.
  unfoldable pub run_update : (Tables Price → Option (Tables Price)) → S.Conn → Bool × S.Conn
  run_update u c = if S.is_valid c then S.execute u c else (false, c)
