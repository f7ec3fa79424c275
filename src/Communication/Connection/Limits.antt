-- ===== src/Communication/Connection/Limits.antt =====
-- The limit of six tickets over a connection.
use ticket_ist.Prelude.{
  ℕ, ◌≤◌, Option, none, some, List, [], ◌∷◌, Bytes, split_at, Result, ok, throw,
}
use ticket_ist.Prelude.Int.{ℤ}
use ticket_ist.Platform.{Platform}
use ticket_ist.Database.Schema
use ticket_ist.Database.Laws.{IsReliable}
use ticket_ist.Controller.State.{Controller, Inputs}
use ticket_ist.Controller.Sessions.{logout_user_by_ssl}
use ticket_ist.Controller.Dispatch.{message_handler}
use ticket_ist.Controller.Limit.{IsWithinLimit}
use ticket_ist.Controller.Limit.Messages.{message_handler-Limited}
use ticket_ist.Communication.Connection.{answer, handle_client}

module _ (p : Platform) (R : IsReliable p.sql) (ssl : ℕ) where
  logged_out : (s : Controller p) → IsWithinLimit s → IsWithinLimit (logout_user_by_ssl p ssl s)
  unfolding logout_user_by_ssl
  logged_out s h = h

  answer-IsWithinLimit :
      (parts : Option (Bytes × Bytes)) (handled : Result Bytes × Controller p) (s : Controller p)
      (next : Controller p → List Bytes × Controller p)
      → IsWithinLimit s
      → IsWithinLimit handled.1
      → ((s' : Controller p) → IsWithinLimit s' → IsWithinLimit (next s').1)
      → IsWithinLimit (answer p ssl parts handled s next).1
  unfolding answer
  answer-IsWithinLimit none handled s next h h' step = h
  answer-IsWithinLimit (some parts) (throw e, s') s next h h' step = logged_out s' h'
  answer-IsWithinLimit (some parts) (ok response, s') s next h h' step = step s' h'

  -- On a reliable server the messages of one connection, whatever texts come in on it and in whatever
  -- order, take nobody above six tickets, neither its user nor anyone else, if nobody was above before
  -- and no other connection is served meanwhile.
  pub handle_client-IsWithinLimit :
      (texts : List (Inputs × Bytes)) (s : Controller p)
      → ((v : ℤ) → Schema.count_owned v (p.tables s.conn) ≤ 6)
      → (v : ℤ) → Schema.count_owned v (p.tables (handle_client p ssl texts s).1.conn) ≤ 6
  unfolding handle_client
  handle_client-IsWithinLimit [] s h = h
  handle_client-IsWithinLimit ((inputs, received) ∷ rest) s h =
      answer-IsWithinLimit (split_at b':' received) (message_handler p inputs ssl received s) s
        (handle_client p ssl rest) h ((message_handler-Limited p R inputs ssl received).at s h)
        (handle_client-IsWithinLimit rest)
