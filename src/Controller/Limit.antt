-- ===== src/Controller/Limit.antt =====
-- The limit of six tickets over all messages: no request, of whoever and in whatever order, takes
-- anyone above it.
pub mod Handlers
pub mod Messages
use ticket_ist.Prelude.{
  ◌≤◌, Bool, true, false, Bytes, Result, ok, throw, invalid_argument, out_of_range, runtime_error,
  if◌then◌else◌,
}
use ticket_ist.Prelude.Int.{ℤ}
use ticket_ist.Prelude.Action.{Action, lift, ◌>>=◌, ◌>>◌}
use ticket_ist.Platform.{Platform}
use ticket_ist.Database.Schema
use ticket_ist.Service.Users
use ticket_ist.Service.Events.{EventService}
use ticket_ist.Service.Tickets.{TicketService}
use ticket_ist.Service.Tickets.Kept.{IsKept}
use ticket_ist.Controller.State.{
  Controller, on_users, on_events, on_tickets, catch_result, catch_invalid,
}

module _ {p : Platform} where
  -- Nobody owns more than six tickets.
  abbrev pub IsWithinLimit : Controller p → Type 0
  IsWithinLimit s = (v : ℤ) → Schema.count_owned v (p.tables s.conn) ≤ 6

  -- The action takes nobody above the limit, whether it returns or throws.
  pub record Limited {A : Type 0} (a : Action (Controller p) A) : Type 0 where
    pub at : (s : Controller p) → IsWithinLimit s → IsWithinLimit (a s).1

  abbrev done : {A : Type 0} → Result A → Controller p → Action (Controller p) A
  done r s before = (r, s)

  bind_at :
      {A B : Type 0} (r : Result A) (s : Controller p) (f : A → Action (Controller p) B)
      → IsWithinLimit s
      → ((a : A) → Limited (f a))
      → IsWithinLimit ((done r s >>= f) s).1
  bind_at (ok a) s f h next = (next a).at s h
  bind_at (throw e) s f h next = h

  pub Limited-bind :
      {A B : Type 0} (a : Action (Controller p) A) (f : A → Action (Controller p) B)
      → Limited a
      → ((x : A) → Limited (f x))
      → Limited (a >>= f)
  Limited-bind a f first next = record { at = λ s h. bind_at (a s).0 (a s).1 f (first.at s h) next }

  catch_at :
      {A : Type 0} (x : Result A × Controller p) (f : Bytes → Action (Controller p) A)
      → IsWithinLimit x.1
      → ((what : Bytes) → Limited (f what))
      → IsWithinLimit (catch_result x f).1
  catch_at (ok a, s) f h next = h
  catch_at (throw (invalid_argument what), s) f h next = (next what).at s h
  catch_at (throw (out_of_range what), s) f h next = h
  catch_at (throw (runtime_error what), s) f h next = h

  pub Limited-catch :
      {A : Type 0} (a : Action (Controller p) A) (f : Bytes → Action (Controller p) A)
      → Limited a
      → ((what : Bytes) → Limited (f what))
      → Limited (catch_invalid a f)
  Limited-catch a f first next = record { at = λ s h. catch_at (a s) f (first.at s h) next }

  pub Limited-if :
      {A : Type 0} (b : Bool) (a f : Action (Controller p) A)
      → Limited a
      → Limited f
      → Limited (if b then a else f)
  Limited-if true a f yes_ no_ = yes_
  Limited-if false a f yes_ no_ = no_

  pub Limited-lift : {A : Type 0} (r : Result A) → Limited (lift r)
  Limited-lift r = record { at = λ s h. h }

  pub Limited-users :
      {A : Type 0} (m : Action p.Conn A)
      → ((c : p.Conn) → IsKept p (p.tables c) (p.tables (m c).1))
      → Limited (on_users m)
  Limited-users m kept = record { at = λ s h v. rw (kept s.conn v) (h v) }

  pub Limited-events :
      {A : Type 0} (m : Action (EventService p) A)
      → ((s : EventService p) → IsKept p (p.tables s.conn) (p.tables (m s).1.conn))
      → Limited (on_events m)
  Limited-events m kept = record {
    at = λ s h v. rw (kept (record { conn = s.conn; event_cache = s.event_cache }) v) (h v);
  }

  pub Limited-tickets :
      {A : Type 0} (m : Action (TicketService p) A)
      → ((s : TicketService p) → IsKept p (p.tables s.conn) (p.tables (m s).1.conn))
      → Limited (on_tickets m)
  Limited-tickets m kept = record {
    at = λ s h v.
        rw (kept (record { conn = s.conn; tickets_info_cache = s.tickets_info_cache }) v) (h v);
  }
