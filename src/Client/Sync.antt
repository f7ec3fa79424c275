-- ===== src/Client/Sync.antt =====
-- The client and the server keep the same session: from the log-in on, over every reply.
use ticket_ist.Prelude.{
  ◌≡◌, refl, true, false, some, Bytes, arith, is_empty, str_eq_refl, split_at-append, Result, ok,
  throw,
}
use ticket_ist.Prelude.Int.{pos, ◌+ℤ◌, ==ℤ_iff}
use ticket_ist.Prelude.Map.{Map, lookup, lookup-insert}
use ticket_ist.Text.Decimal.{IsInt, IsLong, stoi-print_all}
use ticket_ist.Platform.{Platform}
use ticket_ist.Message.Action.{ActionType, to_int, from_int, accept_auth, reject_auth}
use ticket_ist.Message.Wire.{◌:-◌, tag, IsField, print_ℤ-IsField}
use ticket_ist.Message.Authenticated.{AuthenticatedMessage}
use ticket_ist.Message.AcceptAuth
use ticket_ist.Message.AcceptAuth.{AcceptAuthMessage}
use ticket_ist.Message.RejectAuth
use ticket_ist.Message.RejectAuth.{RejectAuthMessage}
use ticket_ist.Controller.State.{Controller, Session}
use ticket_ist.Controller.Sessions.{next_nonce}
use ticket_ist.Controller.Replies.{create_accept_auth_message, create_reject_auth_message}
use ticket_ist.Client.{
  Client, client_action_type, is_reply_correct, next_request, server_response,
  get_and_print_server_response,
}

-- The server's session of the user is the one that the client keeps.
abbrev pub IsSynced : Client → Map Session → Type 0
IsSynced c m = lookup c.username m ≡ some (record { cookie = c.cookie; nonce = c.nonce })

client_action_type-tag :
    (a : ActionType) (rest : Bytes)
    → IsInt (to_int a)
    → from_int (to_int a) ≡ a
    → client_action_type (tag a :- rest) ≡ ok a
unfolding client_action_type
client_action_type-tag a rest fits named = ground (
  arith,
  split_at-append b':' (tag a) rest (print_ℤ-IsField (to_int a)),
  stoi-print_all (to_int a) fits,
  named,
)

pub accept_auth_action :
    (m : AcceptAuthMessage) → client_action_type (AcceptAuth.serialize m) ≡ ok accept_auth
unfolding AcceptAuth.serialize from_int
accept_auth_action m = client_action_type-tag accept_auth _ (omega arith) refl

reject_auth_action :
    (m : RejectAuthMessage) → client_action_type (RejectAuth.serialize m) ≡ ok reject_auth
unfolding RejectAuth.serialize from_int
reject_auth_action m = client_action_type-tag reject_auth _ (omega arith) refl

module _ (c : Client) where
  -- The session that the next reply is signed with.
  abbrev pub next_session : Session
  next_session = record { cookie = c.cookie; nonce = c.nonce +ℤ pos 1 }

  abbrev pub next_signed : AuthenticatedMessage
  next_signed = record {
    username = c.username;
    session_cookies = c.cookie;
    nonce = c.nonce +ℤ pos 1;
  }

  next_nonce-IsSynced :
      (m : Map Session)
      → IsSynced c m
      → ((next_nonce c.username m).0 ≡ next_session)
        × IsSynced (next_request c) (next_nonce c.username m).1
  unfolding next_nonce next_request
  next_nonce-IsSynced m synced =
      ground
        (arith, synced, str_eq_refl c.username, lookup-insert c.username c.username next_session m)

  next_signed-is_reply_correct : is_reply_correct (next_request c) next_signed ≡ true
  unfolding is_reply_correct next_request
  next_signed-is_reply_correct = ground (
    arith,
    str_eq_refl c.username,
    str_eq_refl c.cookie,
    ==ℤ_iff (c.nonce +ℤ pos 1) (c.nonce +ℤ pos 1),
  )

  -- What the client makes of a reply with this text to the request that it counted, and that both
  -- count alike then.
  abbrev pub IsTaken : {p : Platform} → Bytes → ActionType → Result Bytes × Controller p → Type 0
  IsTaken text action (throw e, s) = ⊥
  IsTaken text action (ok reply, s) =
      (get_and_print_server_response reply (next_request c) ≡ ok (action, text))
      × IsSynced (next_request c) s.auth_map

  module _ (text : Bytes) (hu : IsField c.username) (hc : IsField c.cookie)
      (hn : IsLong (c.nonce +ℤ pos 1)) (ht : is_empty text ≡ false) where
    accepts :
        get_and_print_server_response
          (AcceptAuth.serialize (record { base = next_signed; message = text }))
          (next_request c)
        ≡ ok (accept_auth, text)
    unfolding get_and_print_server_response server_response
    accepts =
        let m : AcceptAuthMessage = record { base = next_signed; message = text } in
        let act : client_action_type (AcceptAuth.serialize m) ≡ ok accept_auth =
          accept_auth_action m in
        rw act (
          rw (AcceptAuth.base-serialize_accept_auth m hu hc hn) (
            rw next_signed-is_reply_correct
              (rw (AcceptAuth.deserialize-serialize_accept_auth m hu hc hn ht) refl)))

    rejects :
        get_and_print_server_response
          (RejectAuth.serialize (record { base = next_signed; message = text }))
          (next_request c)
        ≡ ok (reject_auth, text)
    unfolding get_and_print_server_response server_response
    rejects =
        let m : RejectAuthMessage = record { base = next_signed; message = text } in
        let act : client_action_type (RejectAuth.serialize m) ≡ ok reject_auth =
          reject_auth_action m in
        rw act (
          rw (RejectAuth.base-serialize_reject_auth m hu hc hn) (
            rw next_signed-is_reply_correct
              (rw (RejectAuth.deserialize-serialize_reject_auth m hu hc hn ht) refl)))

    module _ (p : Platform) (s : Controller p) (synced : IsSynced c s.auth_map) where
      -- A client that shares its session with the server, and counts its nonce up for a request, takes
      -- the reply to it as correct and prints its text, be it an acceptance or a rejection, and shares
      -- the session with the server again. The user name and the cookie hold no colon, the nonce is a
      -- `long`, and the text is not empty.
      pub create_auth_message-IsTaken :
          IsTaken text accept_auth (create_accept_auth_message p text c.username s)
          × IsTaken text reject_auth (create_reject_auth_message p text c.username s)
      unfolding create_accept_auth_message create_reject_auth_message
      create_auth_message-IsTaken =
          let (signs, again) = next_nonce-IsSynced s.auth_map synced in
          rw signs ((accepts, again), (rejects, again))
