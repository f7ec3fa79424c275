-- ===== src/Controller/Lifetimes.antt =====
-- A session from the log-in to the log-out.
use ticket_ist.Prelude.{ℕ, ◌≡◌, refl, true, false, Bytes, arith, ok, str_eq_refl}
use ticket_ist.Prelude.Int.{ℤ, pos, ◌+ℤ◌, ==ℤ_iff}
use ticket_ist.Prelude.Map.{Map, insert, erase, lookup-insert, lookup-erase}
use ticket_ist.Platform.{Platform}
use ticket_ist.Ticket.Code.{generate_cookie}
use ticket_ist.Message.AcceptAuth
use ticket_ist.Message.LogIn.{LogInMessage}
use ticket_ist.Message.LogOut.{LogOutMessage}
use ticket_ist.Service.Users
use ticket_ist.Controller.State.{Controller, Inputs, Session}
use ticket_ist.Controller.Sessions.{
  is_session_correct, next_nonce, new_session, authenticate_user, logout_user, save_ssl,
}
use ticket_ist.Controller.Replies.{create_accept_auth_message, create_accept_message}
use ticket_ist.Controller.Users.{do_log_in_action, do_logout_action, greeting}

module _ (inputs : Inputs) (username : Bytes) (m : Map Session) where
  abbrev new_cookie : Bytes
  new_cookie = generate_cookie inputs.cookie_draw

  -- The first reply of a new session.
  new_session-next_nonce :
      ((next_nonce username (new_session inputs username m)).0
        ≡ record { cookie = new_cookie; nonce = inputs.new_nonce +ℤ pos 1 })
      × (is_session_correct
            (next_nonce username (new_session inputs username m)).1
            username
            new_cookie
            ((inputs.new_nonce +ℤ pos 1) +ℤ pos 1)
          ≡ true)
  unfolding next_nonce new_session is_session_correct
  new_session-next_nonce =
      let start : Session = record { cookie = new_cookie; nonce = inputs.new_nonce } in
      let n = inputs.new_nonce +ℤ pos 1 in
      let next : Session = record { cookie = new_cookie; nonce = n } in
      ground (
        arith,
        str_eq_refl username,
        str_eq_refl new_cookie,
        ==ℤ_iff (n +ℤ pos 1) (n +ℤ pos 1),
        lookup-insert username username start m,
        lookup-insert username username next (insert username start m),
      )

erase-is_session_correct :
    (username tried : Bytes) (nonce : ℤ) (m : Map Session)
    → is_session_correct (erase username m) username tried nonce ≡ false
unfolding is_session_correct
erase-is_session_correct username tried nonce m =
    ground (arith, lookup-erase username username m, str_eq_refl username)

module _ (p : Platform) where
  -- A log-in that the service accepts is answered with the cookie of a new session, and the next
  -- request of the user passes the check with this cookie and the nonce behind that of the answer.
  pub do_log_in_action-is_session_correct :
      (inputs : Inputs) (m : LogInMessage) (ssl : ℕ) (s : Controller p)
      → (Users.login_user p m.username m.password s.conn).0 ≡ true
      → let cookie = generate_cookie inputs.cookie_draw in
        let n = inputs.new_nonce +ℤ pos 1 in
        let after = do_log_in_action p inputs m ssl s in
        (after.0
          ≡ ok (
              AcceptAuth.serialize (record {
                base = record { username = m.username; session_cookies = cookie; nonce = n };
                message = greeting m.username;
              })))
        × (is_session_correct after.1.auth_map m.username cookie (n +ℤ pos 1) ≡ true)
  unfolding do_log_in_action create_accept_auth_message authenticate_user save_ssl
  do_log_in_action-is_session_correct inputs m ssl s accepted =
      let (first, correct) = new_session-next_nonce inputs m.username s.auth_map in
      rw accepted (rw first (refl, correct))

  -- A user's log-out that passes the check ends the session: in the state behind it no cookie and
  -- no nonce pass the check under this name, and the validators' sessions are as before.
  pub do_logout_action-is_session_correct :
      (m : LogOutMessage) (s : Controller p) (tried : Bytes) (nonce : ℤ)
      → is_session_correct s.auth_map m.username m.session_cookies m.nonce ≡ true
      → (is_session_correct (do_logout_action p m s).1.auth_map m.username tried nonce ≡ false)
        × ((do_logout_action p m s).1.validator_map ≡ s.validator_map)
  unfolding do_logout_action create_accept_message logout_user
  do_logout_action-is_session_correct m s tried nonce correct =
      rw correct (erase-is_session_correct m.username tried nonce s.auth_map, refl)
