-- ===== src/Message/Accept.antt =====
-- `class AcceptMessage`, common/src/Message/AcceptMessage.cpp.
use ticket_ist.Prelude.{◌≡◌, refl, Bytes, split_at, split_at-append, Result, ok, ◌>>=◌, or_throw}
use ticket_ist.Message.Action.{accept}
use ticket_ist.Message.Wire.{◌:-◌, tag, bad_format, print_ℤ-IsField}

pub record AcceptMessage : Type 0 where
  pub message : Bytes

unfoldable pub serialize : AcceptMessage → Bytes
serialize m = tag accept :- m.message

-- The text behind the first colon.
unfoldable pub deserialize : Bytes → Result AcceptMessage
deserialize serialized = do
  (action, message) ← or_throw (split_at b':' serialized) bad_format
  ok (record { message = message })

-- Every message is read back.
pub deserialize-serialize_accept : (m : AcceptMessage) → deserialize (serialize m) ≡ ok m
unfolding deserialize serialize
deserialize-serialize_accept m =
    rw (split_at-append b':' (tag accept) m.message (print_ℤ-IsField _)) refl
