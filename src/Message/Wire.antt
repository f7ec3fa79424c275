-- ===== src/Message/Wire.antt =====
-- What the message formats share: fields behind colons, and the reads that the deserializers of
-- the authenticated messages begin with.
use ticket_ist.Prelude.{
  ◌≡◌, refl, ◌≢◌, [], ◌∷◌, ◌++◌, arith, Bytes, codes, Lacks, Result, ok, Exception,
  invalid_argument, ◌>>=◌, or_throw, throw_unless,
}
use ticket_ist.Prelude.Int.{ℤ, ◌==ℤ◌}
use ticket_ist.Text.Decimal.{print_ℤ, print_ℤ-Lacks, stoi, stoi-print_all, IsInt}
use ticket_ist.Text.Stream.{get_line, get_line-append, get_line-last}
use ticket_ist.Message.Action.{ActionType, to_int}

-- `ss << a << ":" << b`
infixr 66 ◌:-◌
abbrev pub ◌:-◌ : Bytes → Bytes → Bytes
a :- b = a ++ b':' ∷ b

-- The number of an action, as it is printed.
abbrev pub tag : ActionType → Bytes
tag a = print_ℤ (to_int a)

abbrev pub bad_format : Exception
bad_format = invalid_argument (codes "Error: Invalid message format!")

abbrev pub mismatch : Exception
mismatch = invalid_argument (codes "Error: ActionType mismatch during deserialization!")

-- `std::getline(ss, x, ':')`, and `std::getline(ss, x)` up to the end of the line.
unfoldable pub read_field : Exception → Bytes → Result (Bytes × Bytes)
read_field e s = or_throw (get_line b':' s) e

unfoldable pub read_last : Exception → Bytes → Result Bytes
read_last e s = do (line, rest) ← or_throw (get_line 10 s) e; ok line

pub record Header : Type 0 where
  pub action : Bytes
  pub username : Bytes
  pub cookie : Bytes
  pub nonce : Bytes
  pub rest : Bytes

-- The four reads up to a colon of the action, the user, the cookie and the nonce.
unfoldable pub read_header : Exception → Bytes → Result Header
read_header e data_ = do
  (action, s1) ← read_field e data_
  (username, s2) ← read_field e s1
  (cookie, s3) ← read_field e s2
  (nonce, s4) ← read_field e s3
  ok (record { action = action; username = username; cookie = cookie; nonce = nonce; rest = s4 })

-- `std::stoi(action)` compared with the number that the class expects.
unfoldable pub check_action : ActionType → Exception → Bytes → Result (Unit {0})
check_action a e s = do n ← stoi s; throw_unless (n ==ℤ to_int a) e

-- A text that can stand between colons, and one that can stand last: it is not empty and ends
-- with the line.
abbrev pub IsField : Bytes → Type 0
IsField = Lacks b':'

abbrev pub IsLast : Bytes → Type 0
IsLast s = (s ≢ []) × Lacks 10 s

pub print_ℤ-IsField : (n : ℤ) → IsField (print_ℤ n)
print_ℤ-IsField n = print_ℤ-Lacks b':' (omega arith) refl n

pub read_field-append :
    (e : Exception) (a b : Bytes) → IsField a → read_field e (a :- b) ≡ ok (a, b)
unfolding read_field
read_field-append e a b h = rw (get_line-append b':' a b h) refl

pub read_last_lem : (e : Exception) (a : Bytes) → IsLast a → read_last e a ≡ ok a
unfolding read_last
read_last_lem e a (ne, h) = rw (get_line-last 10 a ne h) refl

pub read_header-append :
    (e : Exception) (a u c : Bytes) (n : ℤ) (s : Bytes)
    → IsField a
    → IsField u
    → IsField c
    → read_header e (a :- u :- c :- print_ℤ n :- s)
      ≡ ok (record { action = a; username = u; cookie = c; nonce = print_ℤ n; rest = s })
unfolding read_header
read_header-append e a u c n s ha hu hc = rw (read_field-append e a _ ha) (
    rw (read_field-append e u _ hu) (
      rw (read_field-append e c _ hc)
        (rw (read_field-append e (print_ℤ n) s (print_ℤ-IsField n)) refl)))

pub check_action-tag :
    (a : ActionType) (e : Exception) → IsInt (to_int a) → check_action a e (tag a) ≡ ok tt
unfolding check_action
check_action-tag a e h = rw (stoi-print_all (to_int a) h) (ground arith)
