-- ===== src/Communication/Connection.antt =====
-- `TLSServer::handleClient`, common/src/Communication/TLSServer.cpp: the messages of one connection in
-- their order, each with what its handling draws from outside. A read that fails is the end of the
-- list. The answers are returned; whether they reach the client is not looked at by the server.
pub mod Limits
use ticket_ist.Prelude.{
  ℕ, Option, none, some, List, [], ◌∷◌, Bytes, codes, split_at, Result, ok, throw,
}
use ticket_ist.Platform.{Platform}
use ticket_ist.Message.Reject
use ticket_ist.Controller.State.{Controller, Inputs}
use ticket_ist.Controller.Sessions.{logout_user_by_ssl}
use ticket_ist.Controller.Dispatch.{message_handler}

module _ (p : Platform) (ssl : ℕ) where
  -- What is done with a text whose handling made this result: a text with no colon ends the
  -- connection as it is, and was not handled; an exception logs the user of the connection out.
  unfoldable pub answer :
      Option (Bytes × Bytes)
      → Result Bytes × Controller p
      → Controller p
      → (Controller p → List Bytes × Controller p)
      → List Bytes × Controller p
  answer none handled s next =
      (Reject.serialize (record { message = codes "Invalid message format." }) ∷ [], s)
  answer (some parts) (throw e, s') s next = ([], logout_user_by_ssl p ssl s')
  answer (some parts) (ok response, s') s next =
      let (responses, s'') = next s' in (response ∷ responses, s'')

  -- A failed read ends the connection as it is.
  unfoldable pub handle_client : List (Inputs × Bytes) → Controller p → List Bytes × Controller p
  unfolding answer
  handle_client [] s = ([], s)
  handle_client ((inputs, received) ∷ rest) s =
      answer (split_at b':' received) (message_handler p inputs ssl received s) s
        (handle_client rest)
