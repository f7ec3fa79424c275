-- ===== src/Validator.antt =====
-- The program of a validator, Validator.cpp, over the same desk as the client's: the log-in, and
-- the messages of the menu. Prompts are left out, and so is the handler of signals.
pub mod Attempts
pub mod Menu
use ticket_ist.Prelude.{
  ℕ, zero, suc, Bool, true, false, ◌||◌, ◌&&◌, Option, none, some, [], ◌∷◌, ◌++◌, Bytes, codes,
  str_eq, split_at, is_empty, if◌then◌else◌,
}
use ticket_ist.Prelude.Int.{ℤ, pos, ◌==ℤ◌}
use ticket_ist.Text.Decimal.{stoi}
use ticket_ist.Message.Action.{ActionType, from_int, accept, reject, accept_auth}
use ticket_ist.Message.Authenticated
use ticket_ist.Message.Authenticated.{AuthenticatedMessage}
use ticket_ist.Message.AcceptAuth
use ticket_ist.Message.AcceptAuth.{AcceptAuthMessage}
use ticket_ist.Message.RejectAuth
use ticket_ist.Message.Reject
use ticket_ist.Message.LogInValidator
use ticket_ist.Message.LogOut
use ticket_ist.Message.ValidateTicket
use ticket_ist.Message.CheckIntegrity
use ticket_ist.Client.{Client, next_request}
use ticket_ist.Client.Desk.{
  Machine, Desk, Dialog, Round, again, leave, done, running, pure, lift, exit, look, say, loop,
  ask_word, take_reply, ◌>>=◌, ◌>>◌,
}
use ticket_ist.Client.Ask.{generate_salt, salt_password}

unfoldable pub is_authentication_correct : Client → AuthenticatedMessage → Bool
unfolding str_eq
is_authentication_correct c m =
    str_eq c.username m.username && str_eq c.cookie m.session_cookies && (c.nonce ==ℤ m.nonce)

-- A text with no colon counts as a rejection, and a line says so.
abbrev pub typed : Option (Bytes × Bytes) → Dialog ActionType
typed none d = (say (codes "Invalid message format.") >> pure reject) d
typed (some (number, rest)) d = (lift (stoi number) >>= λ n. pure (from_int n)) d

unfoldable pub get_action_type : Bytes → Dialog ActionType
unfolding stoi from_int ◌>>=◌ ◌>>◌
get_action_type received d = typed (split_at b':' received) d

abbrev pub send : Bytes → Dialog (Unit {0})
send text d = (done tt, record d { sent = d.sent ++ text ∷ [] })

abbrev pub receive : Dialog Bytes
receive d = take_reply d.replies d

abbrev count_nonce : Dialog (Unit {0})
count_nonce d = (done tt, record d { client = next_request d.client })

abbrev pub signed : Desk → AuthenticatedMessage
signed d = record {
  username = d.client.username;
  session_cookies = d.client.cookie;
  nonce = d.client.nonce;
}

abbrev start_session : AcceptAuthMessage → Dialog (Unit {0})
start_session m d = (
  done tt,
  record d {
    client = record { username = m.username; cookie = m.session_cookies; nonce = m.nonce };
  },
)

abbrev is_accept : ActionType → Bool
is_accept accept = true
is_accept _ = false

unfoldable pub logout : {A : Type 0} → Dialog A
unfolding next_request LogOut.serialize get_action_type ◌>>=◌ ◌>>◌
logout = do
  count_nonce
  base ← look signed
  send (LogOut.serialize base)
  reply ← receive
  action ← get_action_type reply
  if is_accept action then say (codes "Logged out successfully.") else pure tt
  exit

-- What a reply to the log-in comes to: whether the validator is in.
unfoldable pub greet : Bytes → ActionType → Dialog Bool
unfolding AcceptAuth.deserialize Reject.deserialize ◌>>=◌ ◌>>◌
greet received accept_auth = do
  m ← lift (AcceptAuth.deserialize received)
  say m.message
  start_session m
  pure true
greet received reject = do m ← lift (Reject.deserialize received); say m.message; pure false
greet received other = say (codes "Unexpected message received. Try again") >> pure false

module _ {Price : Type 0} (machine : Machine Price) (rounds : ℕ) where
  unfoldable pub credentials_round : Bytes × Bytes → Dialog (Round (Bytes × Bytes) (Bytes × Bytes))
  unfolding is_empty ◌>>=◌ ◌>>◌
  credentials_round (old_username, old_password) = do
    username ← ask_word old_username
    password ← ask_word old_password
    let insist = do
      say (codes "Username and password cannot be empty.")
      pure (again (username, password))
    if is_empty username || is_empty password then insist else pure (leave (username, password))

  -- One try: the credentials, the message, and its reply.
  unfoldable pub try_log_in : Dialog Bool
  unfolding credentials_round loop generate_salt LogInValidator.serialize get_action_type greet
      ◌>>=◌ ◌>>◌
  try_log_in = do
    (username, password) ← loop rounds credentials_round ([], [])
    let salted_pwd = salt_password password (generate_salt machine username)
    send (LogInValidator.serialize (record { username = username; password = salted_pwd }))
    received ← receive
    action ← get_action_type received
    greet received action

  -- A try that fails calls the function again and drops what it returns: `none` is the end of a
  -- function that has no `return`, whose value is not defined. `tries` bounds the calls.
  unfoldable pub authenticate : ℕ → Dialog (Option Bool)
  unfolding try_log_in ◌>>=◌ ◌>>◌
  authenticate zero = λ d. (running, d)
  authenticate (suc tries) = do
    entered ← try_log_in
    if entered then pure (some true) else (authenticate tries >> pure none)

  -- The message behind a valid choice.
  unfoldable pub request : ℤ → Dialog (Unit {0})
  unfolding next_request ValidateTicket.serialize CheckIntegrity.serialize logout ◌>>=◌ ◌>>◌
  request choice =
      if choice ==ℤ pos 1
      then (do
        validation_code ← ask_word []
        count_nonce
        base ← look signed
        send (ValidateTicket.serialize (record { base = base; val_code = validation_code })))
      else if choice ==ℤ pos 2
      then (do
        val_code ← ask_word []
        integrity_code ← ask_word []
        count_nonce
        base ← look signed
        send (
            CheckIntegrity.serialize
              (record { base = base; val_code = val_code; integrity_code = integrity_code })))
      else if choice ==ℤ pos 3
      then logout
      else say (codes "Invalid input. Please enter a number.")
