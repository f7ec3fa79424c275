-- ===== src/Message/LogIn.antt =====
-- `class LogInMessage`, common/src/Message/LogInMessage.cpp.
use ticket_ist.Prelude.{◌≡◌, refl, Bytes, split_at, split_at-append, Result, ok, ◌>>=◌, or_throw}
use ticket_ist.Message.Action.{log_in}
use ticket_ist.Message.Wire.{◌:-◌, tag, bad_format, IsField, print_ℤ-IsField}

pub record LogInMessage : Type 0 where
  pub username : Bytes
  pub password : Bytes

unfoldable pub serialize : LogInMessage → Bytes
serialize m = tag log_in :- m.username :- m.password

-- The texts between the first two colons and behind the second; both must be there.
unfoldable pub deserialize : Bytes → Result LogInMessage
deserialize serialized = do
  (action, s) ← or_throw (split_at b':' serialized) bad_format
  (username, password) ← or_throw (split_at b':' s) bad_format
  ok (record { username = username; password = password })

-- A message whose user name holds no colon is read back, whatever its password holds.
pub deserialize-serialize_log_in :
    (m : LogInMessage) → IsField m.username → deserialize (serialize m) ≡ ok m
unfolding deserialize serialize
deserialize-serialize_log_in m h =
    rw (split_at-append b':' (tag log_in) (m.username :- m.password) (print_ℤ-IsField _))
      (rw (split_at-append b':' m.username m.password h) refl)
