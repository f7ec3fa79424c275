-- ===== src/Client/LogIn.antt =====
-- The client's side of a log-in.
use ticket_ist.Prelude.{
  ℕ, ◌<◌, ◌≡◌, refl, true, false, some, [], ◌∷◌, Bytes, arith, is_empty, str_eq_refl, Result, ok,
  throw,
}
use ticket_ist.Prelude.Int.{pos, ◌+ℤ◌}
use ticket_ist.Prelude.Map.{Map, lookup, insert, lookup-insert}
use ticket_ist.Text.Decimal.{IsLong}
use ticket_ist.Platform.{Platform}
use ticket_ist.Ticket.Code.{generate_cookie, generate_cookie-IsWord, IsWord}
use ticket_ist.Message.Action.{accept_auth}
use ticket_ist.Message.Wire.{IsField}
use ticket_ist.Message.AcceptAuth
use ticket_ist.Message.AcceptAuth.{AcceptAuthMessage}
use ticket_ist.Message.LogIn.{LogInMessage}
use ticket_ist.Service.Users
use ticket_ist.Controller.State.{Controller, Inputs, Session}
use ticket_ist.Controller.Sessions.{next_nonce, new_session, authenticate_user, save_ssl}
use ticket_ist.Controller.Replies.{create_accept_auth_message}
use ticket_ist.Controller.Users.{do_log_in_action, greeting}
use ticket_ist.Client.{Client, auth_response, get_and_print_auth_response}
use ticket_ist.Client.Sync.{IsSynced, accept_auth_action}

IsWord-IsField : (s : Bytes) → IsWord s → IsField s
IsWord-IsField [] h = tt
IsWord-IsField (c ∷ s) (hc, h) = (ground (arith, hc), IsWord-IsField s h)

module _ (inputs : Inputs) (username : Bytes) (m : Map Session) where
  -- The session behind the first reply.
  abbrev started : Session
  started = record {
    cookie = generate_cookie inputs.cookie_draw;
    nonce = inputs.new_nonce +ℤ pos 1;
  }

  next_nonce-started :
      ((next_nonce username (new_session inputs username m)).0 ≡ started)
      × (lookup username (next_nonce username (new_session inputs username m)).1 ≡ some started)
  unfolding next_nonce new_session
  next_nonce-started =
      let start : Session = record started { nonce = inputs.new_nonce } in
      ground (
        arith,
        str_eq_refl username,
        lookup-insert username username start m,
        lookup-insert username username started (insert username start m),
      )

greeting-is_empty : (username : Bytes) → is_empty (greeting username) ≡ false
unfolding is_empty
greeting-is_empty username = refl

takes :
    (c : Client) (m : AcceptAuthMessage)
    → IsField m.username
    → IsField m.session_cookies
    → IsLong m.nonce
    → is_empty m.message ≡ false
    → get_and_print_auth_response (AcceptAuth.serialize m) c ≡ (
      accept_auth,
      m.message,
      record { username = m.username; cookie = m.session_cookies; nonce = m.nonce },
    )
unfolding get_and_print_auth_response auth_response
takes c m hu hc hn hm =
    ground (arith, accept_auth_action m, AcceptAuth.deserialize-serialize_accept_auth m hu hc hn hm)

module _ (p : Platform) (inputs : Inputs) (m : LogInMessage) (ssl : ℕ) (c : Client) where
  -- What the client makes of the reply, and that both have the same session then.
  abbrev pub IsWelcomed : Result Bytes × Controller p → Type 0
  IsWelcomed (throw e, s) = ⊥
  IsWelcomed (ok reply, s) =
      ((get_and_print_auth_response reply c).0 ≡ accept_auth)
      × ((get_and_print_auth_response reply c).1 ≡ greeting m.username)
      × IsSynced (get_and_print_auth_response reply c).2 s.auth_map

  -- A client that logs in with a password that the service accepts is greeted, and has the same
  -- session as the server then, if its name holds no colon, the draws of the cookie are among its
  -- 62 characters, and the nonce of the reply is a `long`.
  pub do_log_in_action-IsWelcomed :
      (s : Controller p)
      → (Users.login_user p m.username m.password s.conn).0 ≡ true
      → IsField m.username
      → ((i : ℕ) → inputs.cookie_draw i < 62)
      → IsLong (inputs.new_nonce +ℤ pos 1)
      → IsWelcomed (do_log_in_action p inputs m ssl s)
  unfolding do_log_in_action create_accept_auth_message authenticate_user save_ssl
  do_log_in_action-IsWelcomed s accepted hu hd hn =
      let (signs, shared) = next_nonce-started inputs m.username s.auth_map in
      let reply : AcceptAuthMessage = record {
        base = record {
          username = m.username;
          session_cookies = generate_cookie inputs.cookie_draw;
          nonce = inputs.new_nonce +ℤ pos 1;
        };
        message = greeting m.username;
      } in
      let hc =
        IsWord-IsField (generate_cookie inputs.cookie_draw)
          (generate_cookie-IsWord inputs.cookie_draw hd) in
      rw accepted
        (rw signs (rw (takes c reply hu hc hn (greeting-is_empty m.username)) (refl, refl, shared)))
