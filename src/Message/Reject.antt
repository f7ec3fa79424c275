-- ===== src/Message/Reject.antt =====
-- `class RejectMessage`, common/src/Message/RejectMessage.cpp.
use ticket_ist.Prelude.{◌≡◌, refl, Bytes, split_at, split_at-append, Result, ok, ◌>>=◌, or_throw}
use ticket_ist.Message.Action.{reject}
use ticket_ist.Message.Wire.{◌:-◌, tag, bad_format, print_ℤ-IsField}

pub record RejectMessage : Type 0 where
  pub message : Bytes

unfoldable pub serialize : RejectMessage → Bytes
serialize m = tag reject :- m.message

-- The text behind the first colon.
unfoldable pub deserialize : Bytes → Result RejectMessage
deserialize serialized = do
  (action, message) ← or_throw (split_at b':' serialized) bad_format
  ok (record { message = message })

-- Every message is read back.
pub deserialize-serialize_reject : (m : RejectMessage) → deserialize (serialize m) ≡ ok m
unfolding deserialize serialize
deserialize-serialize_reject m =
    rw (split_at-append b':' (tag reject) m.message (print_ℤ-IsField _)) refl
