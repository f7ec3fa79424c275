-- ===== src/Controller/Settles.antt =====
-- How a handler ends, by one rule for each way to build a handler: the body of the `try` either
-- replies and moves the nonce on, or throws what the `catch` takes, and the `catch` replies.
use ticket_ist.Prelude.{
  ◌≡◌, ◌∙◌, Bool, true, false, Bytes, invalid_argument, out_of_range, runtime_error, Result, ok,
  throw, if◌then◌else◌,
}
use ticket_ist.Prelude.Map.{Map}
use ticket_ist.Prelude.Action.{Action, ◌>>=◌}
use ticket_ist.Platform.{Platform}
use ticket_ist.Service.Tickets.Throws.{IsInvalidOnly}
use ticket_ist.Controller.State.{Controller, Session, catch_invalid, catch_result}
use ticket_ist.Controller.Sessions.{next_nonce}

module _ {p : Platform} (sessions : Controller p → Map Session) (username : Bytes)
    (m : Map Session) where
  -- A reply was made, and it moved the nonce of the user's session on.
  abbrev pub RepliedTo : Result Bytes × Controller p → Type 0
  RepliedTo (ok reply, s) = sessions s ≡ (next_nonce username m).1
  RepliedTo (throw e, s) = ⊥

  -- The same, or an exception that the handler catches, with the sessions as they were.
  abbrev pub Settles : Result Bytes × Controller p → Type 0
  Settles (ok reply, s) = sessions s ≡ (next_nonce username m).1
  Settles (throw (invalid_argument what), s) = sessions s ≡ m
  Settles (throw (out_of_range what), s) = ⊥
  Settles (throw (runtime_error what), s) = ⊥

  -- From a state with these sessions, the action replies; or it settles.
  pub record Replying (a : Action (Controller p) Bytes) : Type 0 where
    pub at : (s : Controller p) → sessions s ≡ m → RepliedTo (a s)

  pub record Settling (a : Action (Controller p) Bytes) : Type 0 where
    pub at : (s : Controller p) → sessions s ≡ m → Settles (a s)

  -- A step that throws nothing else than what is caught, and keeps the sessions.
  pub record Safe {A : Type 0} (a : Action (Controller p) A) : Type 0 where
    pub throws : (s : Controller p) → IsInvalidOnly (a s).0
    pub keeps : (s : Controller p) → sessions (a s).1 ≡ sessions s

  RepliedTo-Settles : (x : Result Bytes × Controller p) → RepliedTo x → Settles x
  RepliedTo-Settles (ok reply, s) h = h
  RepliedTo-Settles (throw e, s) h = elim h [ ]

  pub Settling-reply : (a : Action (Controller p) Bytes) → Replying a → Settling a
  Settling-reply a h = record { at = λ s e. RepliedTo-Settles (a s) (h.at s e) }

  settle :
      {A : Type 0} (r : Result A) (s : Controller p) (f : A → Action (Controller p) Bytes)
      → IsInvalidOnly r
      → sessions s ≡ m
      → ((a : A) → Settling (f a))
      → Settles (elim r [ ok a ↦ f a s | throw e ↦ (throw e, s) ])
  settle (ok a) s f only keeps next = (next a).at s keeps
  settle (throw (invalid_argument what)) s f only keeps next = keeps
  settle (throw (out_of_range what)) s f only keeps next = only
  settle (throw (runtime_error what)) s f only keeps next = only

  pub Settling-bind :
      {A : Type 0} (a : Action (Controller p) A) (f : A → Action (Controller p) Bytes)
      → Safe a
      → ((x : A) → Settling (f x))
      → Settling (a >>= f)
  Settling-bind a f safe next = record {
    at = λ s e. settle (a s).0 (a s).1 f (safe.throws s) (safe.keeps s ∙ e) next;
  }

  pub Settling-if :
      (b : Bool) (a c : Action (Controller p) Bytes)
      → Settling a
      → Settling c
      → Settling (if b then a else c)
  Settling-if true a c ha hc = ha
  Settling-if false a c ha hc = hc

  catch_replies :
      (x : Result Bytes × Controller p) (handler : Bytes → Action (Controller p) Bytes)
      → Settles x
      → ((what : Bytes) → Replying (handler what))
      → RepliedTo (catch_result x handler)
  catch_replies (ok reply, s) handler h k = h
  catch_replies (throw (invalid_argument what), s) handler h k = (k what).at s h
  catch_replies (throw (out_of_range what), s) handler h k = h
  catch_replies (throw (runtime_error what), s) handler h k = h

  pub Replying-catch :
      (a : Action (Controller p) Bytes) (handler : Bytes → Action (Controller p) Bytes)
      → Settling a
      → ((what : Bytes) → Replying (handler what))
      → Replying (catch_invalid a handler)
  Replying-catch a handler h k = record { at = λ s e. catch_replies (a s) handler (h.at s e) k }
