-- ===== src/Database/Rows.antt =====
-- How the rows that a test selects change under inserts, deletes and updates.
use ticket_ist.Prelude.{
  ◌+◌, ◌≤◌, ◌≡◌, refl, Bool, true, false, none, some, List, [], ◌∷◌, ◌++◌, arith, length,
  if◌then◌else◌,
}
use ticket_ist.Database.{first_row}
use ticket_ist.Database.Schema.{TicketRow, where_rows, delete_rows, any_row, use_rows}

module _ {A : Type 0} (test : A → Bool) where
  -- A row that is inserted under a new key is the one that the key selects.
  pub where_rows-insert :
      (xs : List A) (r : A)
      → any_row test xs ≡ false
      → test r ≡ true
      → where_rows test (xs ++ r ∷ []) ≡ r ∷ []
  unfolding where_rows any_row
  where_rows-insert [] r free h = rw h refl
  where_rows-insert (x ∷ xs) r free h = ground (arith, where_rows-insert xs r)

  pub delete_rows-insert :
      (xs : List A) (r : A)
      → test r ≡ false
      → delete_rows test (xs ++ r ∷ []) ≡ delete_rows test xs ++ r ∷ []
  unfolding delete_rows
  delete_rows-insert [] r h = rw h refl
  delete_rows-insert (x ∷ xs) r h = ground (arith, delete_rows-insert xs r h)

  pub any_row-delete :
      (other : A → Bool) (xs : List A)
      → any_row test xs ≡ false
      → any_row test (delete_rows other xs) ≡ false
  unfolding any_row delete_rows
  any_row-delete other [] h = refl
  any_row-delete other (x ∷ xs) h = ground (arith, any_row-delete other xs)

  -- After a deletion the test selects nothing.
  pub where_rows-delete : (xs : List A) → where_rows test (delete_rows test xs) ≡ []
  unfolding where_rows delete_rows
  where_rows-delete [] = refl
  where_rows-delete (x ∷ xs) = ground (arith, where_rows-delete xs)

  pub any_row-where :
      (xs : List A) → any_row test xs ≡ false → first_row (some (where_rows test xs)) ≡ none
  unfolding where_rows any_row
  any_row-where [] h = refl
  any_row-where (x ∷ xs) h = ground (arith, any_row-where xs)

  pub any_row-found :
      (xs : List A) (r : A)
      → first_row (some (where_rows test xs)) ≡ some r
      → any_row test xs ≡ true
  unfolding where_rows any_row
  any_row-found [] r h = cc
  any_row-found (x ∷ xs) r h = ground (arith, any_row-found xs r)

  pub any_row-none :
      (xs : List A) → first_row (some (where_rows test xs)) ≡ none → any_row test xs ≡ false
  unfolding where_rows any_row
  any_row-none [] h = refl
  any_row-none (x ∷ xs) h = ground (arith, any_row-none xs)

  -- Rows that the inserted one is not selected with are as before.
  pub where_rows-insert_other :
      (xs : List A) (r : A) → test r ≡ false → where_rows test (xs ++ r ∷ []) ≡ where_rows test xs
  unfolding where_rows
  where_rows-insert_other [] r h = rw h refl
  where_rows-insert_other (x ∷ xs) r h = ground (arith, where_rows-insert_other xs r h)

  -- An inserted row is counted by the tests that it passes.
  pub length-where_rows-insert :
      (xs : List A) (r : A)
      → length (where_rows test (xs ++ r ∷ []))
        ≡ (if test r then length (where_rows test xs) + 1 else length (where_rows test xs))
  unfolding where_rows
  length-where_rows-insert [] r = ground arith
  length-where_rows-insert (x ∷ xs) r = ground (arith, length-where_rows-insert xs r)

  pub length-where_rows-delete :
      (other : A → Bool) (xs : List A)
      → length (where_rows test (delete_rows other xs)) ≤ length (where_rows test xs)
  unfolding where_rows delete_rows
  length-where_rows-delete other [] = omega arith
  length-where_rows-delete other (x ∷ xs) = ground (arith, length-where_rows-delete other xs)

module _ (test : TicketRow → Bool)
    (blind : (r : TicketRow) → test (record r { used = true }) ≡ test r) where
  -- The row that a key selects is selected after the update too, and is in use.
  pub where_rows-use :
      (xs : List TicketRow) (r : TicketRow)
      → first_row (some (where_rows test xs)) ≡ some r
      → first_row (some (where_rows test (use_rows test xs))) ≡ some (record r { used = true })
  unfolding where_rows use_rows
  where_rows-use [] r h = cc
  where_rows-use (x ∷ xs) r h = ground (arith, blind x, where_rows-use xs r)
