-- ===== src/Controller/Nonces.antt =====
-- A reply moves the nonce of its session on, which is what stops a request from being sent again.
use ticket_ist.Prelude.{
  ◌≡◌, refl, true, false, Bytes, arith, str_eq, str_eq_refl, str_eq_iff, Option-cases, inl, inr,
}
use ticket_ist.Prelude.Int.{ℤ, pos, ◌+ℤ◌, ==ℤ_iff, +ℤ-one_ne}
use ticket_ist.Prelude.Map.{Map, lookup, lookup-insert}
use ticket_ist.Controller.State.{Session}
use ticket_ist.Controller.Sessions.{is_session_correct, next_nonce}

module _ (m : Map Session) (username cookie : Bytes) (nonce : ℤ) where
  -- A reply to a request that passes the check carries the cookie and the nonce of that request.
  pub next_nonce-session :
      is_session_correct m username cookie nonce ≡ true
      → (next_nonce username m).0 ≡ record { cookie = cookie; nonce = nonce }
  unfolding is_session_correct next_nonce
  next_nonce-session h = elim (Option-cases (lookup username m)) [
    | inl absent ↦ ground arith
    | inr (session, found) ↦
        ground
          (arith, found, str_eq_iff session.cookie cookie, ==ℤ_iff (session.nonce +ℤ pos 1) nonce)
  ]

  -- For a request that passes the check of its session, the step of the nonce that a reply makes
  -- lets the check fail for the same request, and pass for the next nonce with the same cookie.
  pub next_nonce-is_session_correct :
      is_session_correct m username cookie nonce ≡ true
      → (is_session_correct (next_nonce username m).1 username cookie nonce ≡ false)
        × (is_session_correct (next_nonce username m).1 username cookie (nonce +ℤ pos 1) ≡ true)
  unfolding is_session_correct next_nonce
  next_nonce-is_session_correct h = elim (Option-cases (lookup username m)) [
    | inl absent ↦ ground arith
    | inr (session, found) ↦
        let next = session.nonce +ℤ pos 1 in
        ground (
          arith,
          found,
          str_eq_iff session.cookie cookie,
          ==ℤ_iff next nonce,
          ==ℤ_iff (next +ℤ pos 1) (nonce +ℤ pos 1),
          +ℤ-one_ne nonce,
          str_eq_refl username,
          lookup-insert username username (record session { nonce = next }) m,
        )
  ]

-- The sessions of all others are as before.
pub next_nonce-lookup :
    (m : Map Session) (username other : Bytes)
    → str_eq other username ≡ false
    → lookup other (next_nonce username m).1 ≡ lookup other m
unfolding next_nonce
next_nonce-lookup m username other h =
    rw (lookup-insert username other (next_nonce username m).0 m) (rw h refl)
