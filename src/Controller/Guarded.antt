-- ===== src/Controller/Guarded.antt =====
-- Every handler of an authenticated request, for one that no session allows.
use ticket_ist.Prelude.{
  ◌≡◌, refl, false, some, Bytes, ok, arith, str_eq_iff, Option-cases, Bool-cases, inl, inr,
}
use ticket_ist.Prelude.Int.{ℤ, pos, ◌+ℤ◌, ==ℤ_iff}
use ticket_ist.Prelude.Map.{Map, lookup}
use ticket_ist.Platform.{Platform}
use ticket_ist.Message.Authenticated.{AuthenticatedMessage}
use ticket_ist.Controller.State.{Controller, Session, Inputs}
use ticket_ist.Controller.Sessions.{is_session_correct}
use ticket_ist.Controller.Replies.{create_reject_message}
use ticket_ist.Controller.Shop.{
  do_buy_ticket_action, do_sell_ticket_action, do_get_available_tickets_action,
}
use ticket_ist.Controller.Door.{do_validate_ticket_action, do_check_integrity_action}
use ticket_ist.Controller.Steps.{rejection}

-- The sessions allow a request: its user has one, with the cookie of the request, and the nonce of the
-- request is the one after the session's.
pub record IsAllowed (sessions : Map Session) (b : AuthenticatedMessage) : Type 0 where
  pub session : Session
  pub known : lookup b.username sessions ≡ some session
  pub same_cookie : session.cookie ≡ b.session_cookies
  pub next_nonce : session.nonce +ℤ pos 1 ≡ b.nonce

not-IsAllowed :
    (sessions : Map Session) (b : AuthenticatedMessage)
    → ¬ IsAllowed sessions b
    → is_session_correct sessions b.username b.session_cookies b.nonce ≡ false
unfolding is_session_correct
not-IsAllowed sessions b refused = elim (Option-cases (lookup b.username sessions)) [
  | inl unknown ↦ ground (arith, unknown)
  | inr (session, known) ↦
      elim (Bool-cases (is_session_correct sessions b.username b.session_cookies b.nonce)) [
        | inl correct ↦ absurd (
            refused (record {
              session = session;
              known = known;
              same_cookie =
                  ground (arith, known, correct, str_eq_iff session.cookie b.session_cookies);
              next_nonce = ground (arith, known, correct, ==ℤ_iff (session.nonce +ℤ pos 1) b.nonce);
            }))
        | inr fails ↦ fails
      ]
]

module _ (p : Platform) (b : AuthenticatedMessage) (s : Controller p) where
  -- A listing, a purchase and a sale are each answered by the rejection, and change nothing, if the user
  -- has no session, or another cookie than the request, or the nonce of the request is not the one after
  -- the session's.
  pub user_session_required :
      ¬ IsAllowed s.auth_map b
      → ((name : Bytes)
          → do_get_available_tickets_action p (record { base = b; event_name = name }) s
            ≡ (ok rejection, s))
        × ((inputs : Inputs) (id : ℤ) (name : Bytes)
            → do_buy_ticket_action p inputs
                (record { base = b; ticket_id = id; event_name = name })
                s
              ≡ (ok rejection, s))
        × ((text : Bytes) (price : p.Price)
            → do_sell_ticket_action p
                (record { base = b; serialized_ticket = text; new_price = price })
                s
              ≡ (ok rejection, s))
  unfolding do_get_available_tickets_action do_buy_ticket_action do_sell_ticket_action
      create_reject_message
  user_session_required refused =
      let h = not-IsAllowed s.auth_map b refused in
      (λ name. rw h refl, λ inputs id name. rw h refl, λ text price. rw h refl)

  -- A validation and a check of integrity are each answered by the rejection, and change nothing, if the
  -- validator has no session, or another cookie than the request, or the nonce of the request is not the
  -- one after the session's.
  pub validator_session_required :
      ¬ IsAllowed s.validator_map b
      → ((code : Bytes)
          → do_validate_ticket_action p (record { base = b; val_code = code }) s
            ≡ (ok rejection, s))
        × ((code claim : Bytes)
            → do_check_integrity_action p
                (record { base = b; val_code = code; integrity_code = claim })
                s
              ≡ (ok rejection, s))
  unfolding do_validate_ticket_action do_check_integrity_action create_reject_message
  validator_session_required refused =
      let h = not-IsAllowed s.validator_map b refused in
      (λ code. rw h refl, λ code claim. rw h refl)
