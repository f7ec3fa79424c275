-- ===== src/Client.antt =====
-- What a client keeps of its session and does with a reply, Client.cpp: the global variables
-- `username`, `cookie` and `nonce`, `getAndPrintAuthResponse` and `getAndPrintServerResponse`. The
-- lines that they print are returned. The children add the dialogue around them.
pub mod Sync
pub mod LogIn
pub mod Desk
pub mod Ask
pub mod Folder
pub mod Wallet
pub mod Entry
pub mod Menu
pub mod Program
use ticket_ist.Prelude.{
  Bool, ◌&&◌, none, some, [], Bytes, codes, str_eq, split_at, if◌then◌else◌, Result, ok, throw,
  ◌>>=◌,
}
use ticket_ist.Prelude.Int.{ℤ, pos, ◌==ℤ◌, ◌+ℤ◌}
use ticket_ist.Text.Decimal.{stoi}
use ticket_ist.Message.Action.{ActionType, from_int, reject, accept_auth, reject_auth, unknown}
use ticket_ist.Message.Authenticated
use ticket_ist.Message.Authenticated.{AuthenticatedMessage}
use ticket_ist.Message.Reject
use ticket_ist.Message.AcceptAuth
use ticket_ist.Message.RejectAuth

pub record Client : Type 0 where
  pub username : Bytes
  pub cookie : Bytes
  pub nonce : ℤ

-- A text with no colon counts as a rejection.
unfoldable pub client_action_type : Bytes → Result ActionType
client_action_type received = elim (split_at b':' received) [
  | none ↦ ok reject
  | some (number, rest) ↦ do n ← stoi number; ok (from_int n)
]

unfoldable pub is_reply_correct : Client → AuthenticatedMessage → Bool
unfolding str_eq
is_reply_correct c m =
    str_eq c.username m.username && str_eq c.cookie m.session_cookies && (c.nonce ==ℤ m.nonce)

-- `++nonce` before a request is sent
unfoldable pub next_request : Client → Client
unfolding ◌+ℤ◌
next_request c = record c { nonce = c.nonce +ℤ pos 1 }

-- What stands in the `try`: the action, the line that is printed, and the session.
unfoldable pub auth_response : Bytes → ActionType → Client → Result (ActionType × Bytes × Client)
auth_response received reject c = do m ← Reject.deserialize received; ok (reject, m.message, c)
auth_response received accept_auth c = do
  m ← AcceptAuth.deserialize received
  ok (
    accept_auth,
    m.message,
    record { username = m.username; cookie = m.session_cookies; nonce = m.nonce },
  )
auth_response received other c = ok (other, [], c)

-- Whatever is thrown, the session is kept and the action is unknown; the text of the exception is not
-- returned.
unfoldable pub get_and_print_auth_response : Bytes → Client → ActionType × Bytes × Client
get_and_print_auth_response received c =
    elim (do action ← client_action_type received; auth_response received action c) [
      | ok response ↦ response
      | throw e ↦ (unknown, [], c)
    ]

abbrev ignored : Bytes
ignored = codes "Invalid message received. Ignored!"

unfoldable pub server_response : Bytes → ActionType → Client → Result (ActionType × Bytes)
server_response received accept_auth c = do
  m ← Authenticated.deserialize received
  if is_reply_correct c m
      then (do reply ← AcceptAuth.deserialize received; ok (accept_auth, reply.message))
      else ok (unknown, ignored)
server_response received reject_auth c = do
  m ← Authenticated.deserialize received
  if is_reply_correct c m
      then (do reply ← RejectAuth.deserialize received; ok (reject_auth, reply.message))
      else ok (unknown, ignored)
server_response received reject c = do m ← Reject.deserialize received; ok (reject, m.message)
server_response received other c = ok (unknown, ignored)

-- Nothing is caught here.
unfoldable pub get_and_print_server_response : Bytes → Client → Result (ActionType × Bytes)
get_and_print_server_response received c = do
  action ← client_action_type received
  server_response received action c
