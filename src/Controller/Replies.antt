-- ===== src/Controller/Replies.antt =====
-- The `create…Message` functions of `class Controller`. A reply to an authenticated request moves
-- the nonce of its session on.
use ticket_ist.Prelude.{Bytes, ok}
use ticket_ist.Prelude.Action.{Action}
use ticket_ist.Platform.{Platform}
use ticket_ist.Message.Authenticated.{AuthenticatedMessage}
use ticket_ist.Message.Accept
use ticket_ist.Message.Reject
use ticket_ist.Message.AcceptAuth
use ticket_ist.Message.RejectAuth
use ticket_ist.Controller.State.{Controller, Session}
use ticket_ist.Controller.Sessions.{next_nonce}

abbrev pub signed : Bytes → Session → AuthenticatedMessage
signed username s = record { username = username; session_cookies = s.cookie; nonce = s.nonce }

module _ (p : Platform) where
  unfoldable pub create_accept_message : Bytes → Action (Controller p) Bytes
  create_accept_message message s = (ok (Accept.serialize (record { message = message })), s)

  unfoldable pub create_reject_message : Bytes → Action (Controller p) Bytes
  create_reject_message message s = (ok (Reject.serialize (record { message = message })), s)

  unfoldable pub create_accept_auth_message : Bytes → Bytes → Action (Controller p) Bytes
  create_accept_auth_message message username s =
      let (session, m) = next_nonce username s.auth_map in
      (
        ok (AcceptAuth.serialize (record { base = signed username session; message = message })),
        record s { auth_map = m },
      )

  unfoldable pub create_reject_auth_message : Bytes → Bytes → Action (Controller p) Bytes
  create_reject_auth_message message username s =
      let (session, m) = next_nonce username s.auth_map in
      (
        ok (RejectAuth.serialize (record { base = signed username session; message = message })),
        record s { auth_map = m },
      )

  unfoldable pub create_validator_accept_auth_message : Bytes → Bytes → Action (Controller p) Bytes
  create_validator_accept_auth_message message username s =
      let (session, m) = next_nonce username s.validator_map in
      (
        ok (AcceptAuth.serialize (record { base = signed username session; message = message })),
        record s { validator_map = m },
      )

  unfoldable pub create_validator_reject_auth_message : Bytes → Bytes → Action (Controller p) Bytes
  create_validator_reject_auth_message message username s =
      let (session, m) = next_nonce username s.validator_map in
      (
        ok (RejectAuth.serialize (record { base = signed username session; message = message })),
        record s { validator_map = m },
      )
