-- ===== src/Client/Entry.antt =====
-- Signing up and logging in at the terminal, Client.cpp: `authenticate` and `authentication_bypass`.
pub mod Files
use ticket_ist.Prelude.{ℕ, Bool, true, false, [], Bytes, codes, is_empty, if◌then◌else◌}
use ticket_ist.Prelude.Int.{ℤ, pos, ◌==ℤ◌}
use ticket_ist.Platform.{Platform, compute_sha256}
use ticket_ist.Message.Action.{ActionType, sign_up, log_in, accept_auth}
use ticket_ist.Message.SignUp
use ticket_ist.Message.LogIn
use ticket_ist.Client.{Client, get_and_print_auth_response}
use ticket_ist.Client.Desk.{
  Machine, Dialog, Round, again, leave, done, pure, look, what, say, loop, catch, ask_int,
  discard_line, exchange, ◌>>=◌, ◌>>◌,
}
use ticket_ist.Client.Ask.{generate_salt, salt_password, generate_symetric_key, ask_for_credentials}

abbrev pub is_accept_auth : ActionType → Bool
is_accept_auth accept_auth = true
is_accept_auth _ = false

abbrev pub set_hashed_password : Bytes → Dialog (Unit {0})
set_hashed_password hash d = (done tt, record d { hashed_password = hash })

abbrev pub set_client : Client → Dialog (Unit {0})
set_client c d = (done tt, record d { client = c })

-- The line of a reply, if there is one.
abbrev pub say_reply : Bytes → Dialog (Unit {0})
say_reply line d = (if is_empty line then pure tt else say line) d

unfoldable pub credentials_text : ActionType → Bytes → Bytes → Bytes
unfolding SignUp.serialize LogIn.serialize
credentials_text sign_up username password =
    SignUp.serialize (record { username = username; password = password })
credentials_text _ username password =
    LogIn.serialize (record { username = username; password = password })

module _ (p : Platform) (machine : Machine p.Price) (rounds : ℕ) where
  -- The key of the password goes over the wire, and its hash is kept.
  unfoldable pub credentials_message : ActionType → Bytes × Bytes → Dialog ((Bytes × Bytes) × Bytes)
  unfolding ask_for_credentials generate_salt compute_sha256 credentials_text ◌>>=◌ ◌>>◌
  credentials_message action old = do
    (username, password) ← ask_for_credentials p machine rounds old
    let salted_pwd = salt_password password (generate_salt machine username)
    set_hashed_password (compute_sha256 p salted_pwd)
    pure ((username, password), credentials_text action username salted_pwd)

  -- What is done with a reply to a sign-up or a log-in: whether the user is in.
  unfoldable pub auth_reply : Bytes → Dialog Bool
  unfolding get_and_print_auth_response generate_symetric_key is_empty ◌>>=◌ ◌>>◌
  auth_reply text = do
    reply ← exchange text
    (action, line, client) ← look (λ d. get_and_print_auth_response reply d.client)
    set_client client
    say_reply line
    let enter = do generate_symetric_key p machine rounds; pure true
    if is_accept_auth action then enter else pure false

  abbrev pub Entry : Type 0
  Entry = Round (Bytes × Bytes) Bool

  -- An exception is printed and leaves the loop with `EXIT_FAILURE`, which is true.
  unfoldable pub authenticate_with : ActionType → Bytes × Bytes → Dialog Entry
  unfolding credentials_message auth_reply catch ◌>>=◌ ◌>>◌
  authenticate_with action old = do
    (credentials, text) ← credentials_message action old
    let settle = do
      entered ← auth_reply text
      if entered then pure (leave true) else pure (again credentials)
    catch settle (λ e. say (what e) >> pure (leave true))

  unfoldable pub authenticate_round : Bytes × Bytes → Dialog Entry
  unfolding authenticate_with ◌>>=◌ ◌>>◌
  authenticate_round old = do
    action ← ask_int machine.any_int
    bad ← look (λ d. d.input.fail)
    let refuse = do
      say (codes "Invalid input. Please select a number!")
      discard_line
      pure (again old)
    let ignore = do say (codes "Invalid action. Please choose 1 or 2."); pure (again old)
    if bad
        then refuse
        else (if action ==ℤ pos 1
            then say (codes "SIGN UP") >> authenticate_with sign_up old
            else (if action ==ℤ pos 2
                then say (codes "LOG IN") >> authenticate_with log_in old
                else ignore))

  unfoldable pub authenticate : Dialog Bool
  unfolding loop authenticate_round
  authenticate = loop rounds authenticate_round ([], [])

  unfoldable pub authentication_bypass : Dialog Bool
  unfolding generate_salt LogIn.serialize get_and_print_auth_response compute_sha256 is_empty ◌>>=◌
      ◌>>◌
  authentication_bypass = do
    let salted_pwd = salt_password (codes "morg") (generate_salt machine (codes "lenis"))
    reply ← exchange (LogIn.serialize (record { username = codes "lenis"; password = salted_pwd }))
    (action, line, client) ← look (λ d. get_and_print_auth_response reply d.client)
    set_client client
    say_reply line
    set_hashed_password (compute_sha256 p salted_pwd)
    pure true
