-- ===== src/Controller/Users.antt =====
-- The handlers of `class Controller` for sign-up, log-in and log-out.
use ticket_ist.Prelude.{ℕ, [], ◌++◌, Bytes, codes, if◌then◌else◌}
use ticket_ist.Prelude.Action.{Action, call, ◌>>=◌, ◌>>◌, modify}
use ticket_ist.Platform.{Platform}
use ticket_ist.Message.SignUp.{SignUpMessage}
use ticket_ist.Message.LogIn.{LogInMessage}
use ticket_ist.Message.LogInValidator.{LogInValidatorMessage}
use ticket_ist.Message.LogOut.{LogOutMessage}
use ticket_ist.Service.Users
use ticket_ist.Controller.State.{Controller, Inputs, on_users}
use ticket_ist.Controller.Sessions.{
  is_session_correct, save_ssl, authenticate_user, authenticate_validator, logout_user,
  logout_validator,
}
use ticket_ist.Controller.Replies.{
  create_accept_message, create_reject_message, create_accept_auth_message,
  create_validator_accept_auth_message,
}

abbrev pub greeting : Bytes → Bytes
greeting username = codes "Hello, " ++ username ++ codes "!\n"

abbrev pub farewell : Bytes
farewell = codes "Log-out successful.\n"

module _ (p : Platform) where
  unfoldable pub do_sign_up_action : Inputs → SignUpMessage → ℕ → Action (Controller p) Bytes
  do_sign_up_action inputs m ssl = do
    accepted ← on_users (call (Users.sign_up p m.username m.password))
    if accepted
        then (do
          modify (save_ssl p ssl m.username)
          modify (authenticate_user p inputs m.username)
          create_accept_auth_message p (greeting m.username) m.username)
        else create_reject_message p (codes "Sign-up failed. Please try again.\n")

  unfoldable pub do_log_in_action : Inputs → LogInMessage → ℕ → Action (Controller p) Bytes
  do_log_in_action inputs m ssl = do
    accepted ← on_users (call (Users.login_user p m.username m.password))
    if accepted
        then (do
          modify (save_ssl p ssl m.username)
          modify (authenticate_user p inputs m.username)
          create_accept_auth_message p (greeting m.username) m.username)
        else create_reject_message p (codes "Log-in failed. Please try again.\n")

  unfoldable pub do_log_in_validator_action :
      Inputs → LogInValidatorMessage → ℕ → Action (Controller p) Bytes
  do_log_in_validator_action inputs m ssl = do
    accepted ← on_users (call (Users.login_validator p m.username m.password))
    if accepted
        then (do
          modify (save_ssl p ssl m.username)
          modify (authenticate_validator p inputs m.username)
          create_validator_accept_auth_message p (greeting m.username) m.username)
        else create_reject_message p (codes "Log-in failed. Please try again.\n")

  -- The user's session is tried first, then the validator's. `message` is passed to the checks by
  -- value, so it is still empty when it is sent.
  unfoldable pub do_logout_action : LogOutMessage → Action (Controller p) Bytes
  do_logout_action m s =
      if is_session_correct s.auth_map m.username m.session_cookies m.nonce
      then (modify (logout_user p m.username) >> create_accept_message p farewell) s
      else if is_session_correct s.validator_map m.username m.session_cookies m.nonce
      then (modify (logout_validator p m.username) >> create_accept_message p farewell) s
      else create_reject_message p [] s
