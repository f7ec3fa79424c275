-- ===== src/Database/Laws.antt =====
-- What is known of the server: the documented behaviour of a statement, and the case of a server
-- that refuses nothing but a key that is taken.
use ticket_ist.Prelude.{◌≡◌, ◌⊎◌, true, false, Option, none, some, List, arith}
use ticket_ist.Database.{Sql, run_select, run_update}
use ticket_ist.Database.Schema.{Tables}

-- A query changes no table, and either throws or returns what it means for the tables. A statement
-- that changes the tables either throws and leaves them alone, or has its meaning.
pub record SqlLaws {Price : Type 0} (S : Sql Price) : Type 1 where
  pub select_keeps :
      (A : Type 0) (q : Tables Price → List A) (c : S.Conn)
      → S.tables (S.select A q c).1 ≡ S.tables c
  pub select_answers :
      (A : Type 0) (q : Tables Price → List A) (c : S.Conn)
      → ((S.select A q c).0 ≡ none) ⊎ ((S.select A q c).0 ≡ some (q (S.tables c)))
  pub execute_answers :
      (u : Tables Price → Option (Tables Price)) (c : S.Conn)
      → (((S.execute u c).0 ≡ false) × (S.tables (S.execute u c).1 ≡ S.tables c))
        ⊎ (((S.execute u c).0 ≡ true) × (u (S.tables c) ≡ some (S.tables (S.execute u c).1)))

-- Every connection is valid, and no statement throws but one that breaks a key: nothing is lost on
-- the way, and every text fits its column.
pub record IsReliable {Price : Type 0} (S : Sql Price) : Type 1 where
  pub laws : SqlLaws S
  pub always_valid : (c : S.Conn) → S.is_valid c ≡ true
  pub selects :
      (A : Type 0) (q : Tables Price → List A) (c : S.Conn)
      → (S.select A q c).0 ≡ some (q (S.tables c))
  pub executes :
      (u : Tables Price → Option (Tables Price)) (c : S.Conn) (t : Tables Price)
      → u (S.tables c) ≡ some t
      → (S.execute u c).0 ≡ true

module _ {Price : Type 0} (S : Sql Price) (L : SqlLaws S) where
  pub run_select_keeps :
      (A : Type 0) (q : Tables Price → List A) (c : S.Conn)
      → S.tables (run_select S A q c).1 ≡ S.tables c
  unfolding run_select
  run_select_keeps A q c = ground (arith, L.select_keeps A q c)

  pub run_select_answers :
      (A : Type 0) (q : Tables Price → List A) (c : S.Conn)
      → ((run_select S A q c).0 ≡ none) ⊎ ((run_select S A q c).0 ≡ some (q (S.tables c)))
  unfolding run_select
  run_select_answers A q c = ground (arith, L.select_answers A q c)

  pub run_update_answers :
      (u : Tables Price → Option (Tables Price)) (c : S.Conn)
      → (((run_update S u c).0 ≡ false) × (S.tables (run_update S u c).1 ≡ S.tables c))
        ⊎ (((run_update S u c).0 ≡ true) × (u (S.tables c) ≡ some (S.tables (run_update S u c).1)))
  unfolding run_update
  run_update_answers u c = ground (arith, L.execute_answers u c)

module _ {Price : Type 0} (S : Sql Price) (R : IsReliable S) where
  pub run_select-some :
      (A : Type 0) (q : Tables Price → List A) (c : S.Conn)
      → (run_select S A q c).0 ≡ some (q (S.tables c))
  unfolding run_select
  run_select-some A q c = ground (arith, R.always_valid c, R.selects A q c)

  pub run_update-true :
      (u : Tables Price → Option (Tables Price)) (c : S.Conn) (t : Tables Price)
      → u (S.tables c) ≡ some t
      → ((run_update S u c).0 ≡ true) × (S.tables (run_update S u c).1 ≡ t)
  unfolding run_update
  run_update-true u c t h =
      ground (arith, R.always_valid c, R.executes u c t h, R.laws.execute_answers u c)

  pub run_update-false :
      (u : Tables Price → Option (Tables Price)) (c : S.Conn)
      → u (S.tables c) ≡ none
      → ((run_update S u c).0 ≡ false) × (S.tables (run_update S u c).1 ≡ S.tables c)
  unfolding run_update
  run_update-false u c h = ground (arith, R.always_valid c, R.laws.execute_answers u c)
