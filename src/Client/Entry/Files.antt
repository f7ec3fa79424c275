-- ===== src/Client/Entry/Files.antt =====
-- Signing up and logging in write over no file.
use ticket_ist.Prelude.{ℕ, List, [], ◌∷◌, ◌++◌, is_empty, Bytes, Result, ok, throw}
use ticket_ist.Platform.{Platform}
use ticket_ist.Message.Action.{ActionType}
use ticket_ist.Client.{Client}
use ticket_ist.Client.Desk.{Machine, Desk, exchange, take_reply, pure, say}
use ticket_ist.Client.Desk.Keeps.{Keeps, keeps_rules, Keeps-if, Keeps-pure, Keeps-say}
use ticket_ist.Client.Desk.Files.{IsKept, IsKept-Allows}
use ticket_ist.Client.Ask.Keeps.{ask_for_credentials-Keeps}
use ticket_ist.Client.Ask.Files.{generate_symetric_key-Keeps}
use ticket_ist.Client.Entry.{
  set_client, set_hashed_password, say_reply, credentials_message, auth_reply, authenticate_with,
  authenticate_round, authenticate, authentication_bypass,
}

reply_at : (replies : List (Result Bytes)) (d : Desk) → IsKept d (take_reply replies d).1
reply_at [] d path content h = h
reply_at (ok reply ∷ rest) d path content h = h
reply_at (throw e ∷ rest) d path content h = h

pub exchange-Keeps : (text : Bytes) → Keeps IsKept (exchange text)
exchange-Keeps text = record {
  at = λ d. reply_at d.replies (record d { sent = d.sent ++ text ∷ [] });
}

set_client-Keeps : (c : Client) → Keeps IsKept (set_client c)
set_client-Keeps c = record { at = λ d path content h. h }

set_hashed_password-Keeps : (hash : Bytes) → Keeps IsKept (set_hashed_password hash)
set_hashed_password-Keeps hash = record { at = λ d path content h. h }

say_reply-Keeps : (line : Bytes) → Keeps IsKept (say_reply line)
say_reply-Keeps line = record {
  at =
      (Keeps-if IsKept-Allows (is_empty line) (pure tt) (say line) (Keeps-pure IsKept-Allows tt)
        (Keeps-say IsKept-Allows line)).at;
}

module _ (p : Platform) (machine : Machine p.Price) (rounds : ℕ) where
  credentials_message-Keeps :
      (action : ActionType) (old : Bytes × Bytes)
      → Keeps IsKept (credentials_message p machine rounds action old)
  unfolding credentials_message
  credentials_message-Keeps action old =
      search (keeps_rules, IsKept-Allows, ask_for_credentials-Keeps, set_hashed_password-Keeps)
        depth 14

  auth_reply-Keeps : (text : Bytes) → Keeps IsKept (auth_reply p machine rounds text)
  unfolding auth_reply
  auth_reply-Keeps text =
      search
        (
          keeps_rules, IsKept-Allows, exchange-Keeps, set_client-Keeps, say_reply-Keeps,
          generate_symetric_key-Keeps,
        )
        depth 16

  authenticate_with-Keeps :
      (action : ActionType) (old : Bytes × Bytes)
      → Keeps IsKept (authenticate_with p machine rounds action old)
  unfolding authenticate_with
  authenticate_with-Keeps action old =
      search (keeps_rules, IsKept-Allows, credentials_message-Keeps, auth_reply-Keeps) depth 14

  authenticate_round-Keeps :
      (old : Bytes × Bytes) → Keeps IsKept (authenticate_round p machine rounds old)
  unfolding authenticate_round
  authenticate_round-Keeps old =
      search (keeps_rules, IsKept-Allows, authenticate_with-Keeps) depth 16

  pub authenticate-Keeps : Keeps IsKept (authenticate p machine rounds)
  unfolding authenticate
  authenticate-Keeps = search (keeps_rules, IsKept-Allows, authenticate_round-Keeps)

  pub authentication_bypass-Keeps : Keeps IsKept (authentication_bypass p machine rounds)
  unfolding authentication_bypass
  authentication_bypass-Keeps =
      search
        (
          keeps_rules, IsKept-Allows, exchange-Keeps, set_client-Keeps, say_reply-Keeps,
          set_hashed_password-Keeps,
        )
        depth 16
