-- ===== src/Message/AcceptAuth.antt =====
-- `class AcceptAuthMessage`, common/src/Message/AcceptAuthMessage.cpp.
use ticket_ist.Prelude.{
  ◌≡◌, refl, false, arith, Bytes, is_empty, split_at, split_at-append, Result, ok, throw, ◌>>=◌,
  ◌>>◌, or_throw, if◌then◌else◌,
}
use ticket_ist.Text.Decimal.{print_ℤ, stol, stol-print_all, IsLong}
use ticket_ist.Message.Action.{accept_auth}
use ticket_ist.Message.Wire.{
  ◌:-◌, tag, bad_format, mismatch, check_action, IsField, print_ℤ-IsField, read_field-append,
  check_action-tag,
}
use ticket_ist.Message.Authenticated.{AuthenticatedMessage}
use ticket_ist.Message.Authenticated

pub record AcceptAuthMessage : Type 0 where
  pub base : AuthenticatedMessage
  pub open base use *
  pub message : Bytes

unfoldable pub serialize : AcceptAuthMessage → Bytes
serialize m = tag accept_auth :- m.username :- m.session_cookies :- print_ℤ m.nonce :- m.message

-- Each field is cut off and checked before the next one is looked for. A message must be there.
unfoldable pub deserialize : Bytes → Result AcceptAuthMessage
deserialize data_ = do
  (action, s1) ← or_throw (split_at b':' data_) bad_format
  check_action accept_auth mismatch action
  (username, s2) ← or_throw (split_at b':' s1) bad_format
  (cookie, s3) ← or_throw (split_at b':' s2) bad_format
  (nonce_str, message) ← or_throw (split_at b':' s3) bad_format
  nonce ← stol nonce_str
  if is_empty message
      then throw bad_format
      else ok (record {
        base = record { username = username; session_cookies = cookie; nonce = nonce };
        message = message;
      })

-- A reply is read back if its user name and cookie hold no colon, its nonce is a `long` and its
-- message is not empty; the message may hold anything.
pub deserialize-serialize_accept_auth :
    (m : AcceptAuthMessage)
    → IsField m.username
    → IsField m.session_cookies
    → IsLong m.nonce
    → is_empty m.message ≡ false
    → deserialize (serialize m) ≡ ok m
unfolding deserialize serialize
deserialize-serialize_accept_auth m hu hc hn hm =
    rw (split_at-append b':' (tag accept_auth) _ (print_ℤ-IsField _)) (
      rw (check_action-tag accept_auth mismatch (omega arith)) (
        rw (split_at-append b':' m.username _ hu) (
          rw (split_at-append b':' m.session_cookies _ hc) (
            rw (split_at-append b':' (print_ℤ m.nonce) m.message (print_ℤ-IsField _))
              (rw (stol-print_all m.nonce hn, hm) refl)))))

-- The base class reads the same user, cookie and nonce out of a reply, whatever its message is, if
-- user name and cookie hold no colon and the nonce is a `long`.
pub base-serialize_accept_auth :
    (m : AcceptAuthMessage)
    → IsField m.username
    → IsField m.session_cookies
    → IsLong m.nonce
    → Authenticated.deserialize (serialize m) ≡ ok m.base
unfolding serialize Authenticated.deserialize
base-serialize_accept_auth m hu hc hn =
    let (line, reads, number) = Authenticated.read_last-number m.nonce m.message hn in
    rw (read_field-append bad_format (tag accept_auth) _ (print_ℤ-IsField _)) (
      rw (read_field-append bad_format m.username _ hu)
        (rw (read_field-append bad_format m.session_cookies _ hc) (rw reads (rw number refl))))
