-- ===== src/Controller/State.antt =====
-- The fields of `class Controller`, with those of the services in it. The services share one
-- connection, `Repository::conn`.
use ticket_ist.Prelude.{
  ℕ, List, Bytes, invalid_argument, out_of_range, runtime_error, Result, ok, throw,
}
use ticket_ist.Prelude.Int.{ℤ}
use ticket_ist.Prelude.Map.{Map}
use ticket_ist.Prelude.Action.{Action}
use ticket_ist.Platform.{Platform}
use ticket_ist.Ticket.{Tm}
use ticket_ist.Repository.Events.{Event}
use ticket_ist.Service.Tickets.{TicketService, InfoCache}
use ticket_ist.Service.Events.{EventService}

-- The cookie and the nonce of a user: the pairs in `auth_map` and `validator_map`.
pub record Session : Type 0 where
  pub cookie : Bytes
  pub nonce : ℤ

-- What a request draws from outside: the time, the nonce of a new session, and the draws for its
-- cookie and for a validation code.
pub record Inputs : Type 0 where
  pub now : Tm
  pub new_nonce : ℤ
  pub cookie_draw : ℕ → ℕ
  pub code_draw : ℕ → ℕ

-- A connection object `SSL*` is known by a number.
pub record Controller (p : Platform) : Type 0 where
  pub conn : p.Conn
  pub event_cache : Map Event
  pub tickets_info_cache : InfoCache p
  pub auth_map : Map Session
  pub validator_map : Map Session
  pub ssl_to_username : List (ℕ × Bytes)

module _ {p : Platform} {A : Type 0} where
  -- The services run on their part of the state.
  abbrev pub on_tickets : Action (TicketService p) A → Action (Controller p) A
  on_tickets m s =
      let (r, t) = m (record { conn = s.conn; tickets_info_cache = s.tickets_info_cache }) in
      (r, record s { conn = t.conn; tickets_info_cache = t.tickets_info_cache })

  abbrev pub on_events : Action (EventService p) A → Action (Controller p) A
  on_events m s =
      let (r, e) = m (record { conn = s.conn; event_cache = s.event_cache }) in
      (r, record s { conn = e.conn; event_cache = e.event_cache })

  abbrev pub on_users : Action p.Conn A → Action (Controller p) A
  on_users m s = let (r, c) = m s.conn in (r, record s { conn = c })

  -- `try { m } catch (const std::invalid_argument& e) { h(e.what()) }`, on what `m` did
  abbrev pub catch_result :
      Result A × Controller p → (Bytes → Action (Controller p) A) → Result A × Controller p
  catch_result (ok a, s) h = (ok a, s)
  catch_result (throw (invalid_argument what), s) h = h what s
  catch_result (throw (out_of_range what), s) h = (throw (out_of_range what), s)
  catch_result (throw (runtime_error what), s) h = (throw (runtime_error what), s)

  abbrev pub catch_invalid :
      Action (Controller p) A → (Bytes → Action (Controller p) A) → Action (Controller p) A
  catch_invalid m h s = catch_result (m s) h
