-- ===== src/Controller/Sessions.antt =====
-- The sessions of `class Controller`: log-in, log-out and the check that every request passes.
use ticket_ist.Prelude.{
  ℕ, Bool, false, Option, none, some, List, [], ◌∷◌, Bytes, str_eq, ◌==◌, if◌then◌else◌,
}
use ticket_ist.Prelude.Int.{ℤ, pos, ◌+ℤ◌, ◌==ℤ◌}
use ticket_ist.Prelude.Map.{Map, lookup, insert, erase, contains}
use ticket_ist.Platform.{Platform}
use ticket_ist.Ticket.Code.{generate_cookie}
use ticket_ist.Controller.State.{Controller, Session, Inputs}

-- `isAuthenticationCorrect` on `auth_map`, and `isValidatorAuthenticationCorrect` on
-- `validator_map`: the user has a session, its cookie, and the nonce that follows its own.
unfoldable pub is_session_correct : Map Session → Bytes → Bytes → ℤ → Bool
unfolding lookup str_eq ◌+ℤ◌
is_session_correct m username cookie nonce = elim (lookup username m) [
  | none ↦ false
  | some session ↦
      if str_eq session.cookie cookie then (session.nonce +ℤ pos 1) ==ℤ nonce else false
]

-- `authenticateUser` and `authenticateValidator`: a new cookie and a new nonce.
unfoldable pub new_session : Inputs → Bytes → Map Session → Map Session
unfolding insert generate_cookie
new_session inputs username m =
    insert username
      (record { cookie = generate_cookie inputs.cookie_draw; nonce = inputs.new_nonce }) m

-- `m[username]`, which is a new entry with an empty cookie and the nonce 0 where there is none.
abbrev session_or_new : Option Session → Session
session_or_new none = record { cookie = []; nonce = pos 0 }
session_or_new (some session) = session

-- `m[username].first` and `++m[username].second`: the session as a reply carries it, and the map.
unfoldable pub next_nonce : Bytes → Map Session → Session × Map Session
unfolding lookup insert ◌+ℤ◌
next_nonce username m =
    let old = session_or_new (lookup username m) in
    let new = record old { nonce = old.nonce +ℤ pos 1 } in (new, insert username new m)

-- `ssl_to_username[ssl] = username`
save_name : ℕ → Bytes → List (ℕ × Bytes) → List (ℕ × Bytes)
save_name ssl username [] = (ssl, username) ∷ []
save_name ssl username ((k, name) ∷ m) =
    let rest = save_name ssl username m in
    if ssl == k then (ssl, username) ∷ m else (k, name) ∷ rest

-- `ssl_to_username[ssl]`, which is the empty name where there is none
name_of : ℕ → List (ℕ × Bytes) → Bytes
name_of ssl [] = []
name_of ssl ((k, name) ∷ m) = let rest = name_of ssl m in if ssl == k then name else rest

erase_name : ℕ → List (ℕ × Bytes) → List (ℕ × Bytes)
erase_name ssl [] = []
erase_name ssl ((k, name) ∷ m) =
    let rest = erase_name ssl m in if ssl == k then rest else (k, name) ∷ rest

module _ (p : Platform) where
  unfoldable pub is_authenticated : Bytes → Controller p → Bool
  unfolding contains
  is_authenticated username s = contains username s.auth_map

  unfoldable pub is_validator_authenticated : Bytes → Controller p → Bool
  unfolding contains
  is_validator_authenticated username s = contains username s.validator_map

  unfoldable pub logout_user : Bytes → Controller p → Controller p
  unfolding erase
  logout_user username s = record s { auth_map = erase username s.auth_map }

  unfoldable pub logout_validator : Bytes → Controller p → Controller p
  unfolding erase
  logout_validator username s = record s { validator_map = erase username s.validator_map }

  unfoldable pub save_ssl : ℕ → Bytes → Controller p → Controller p
  unfolding save_name
  save_ssl ssl username s = record s { ssl_to_username = save_name ssl username s.ssl_to_username }

  -- The validator's map is not looked at. Looking the name up enters it, and it is erased again.
  unfoldable pub logout_user_by_ssl : ℕ → Controller p → Controller p
  unfolding logout_user name_of erase_name
  logout_user_by_ssl ssl s =
      let s' = logout_user (name_of ssl s.ssl_to_username) s in
      record s' { ssl_to_username = erase_name ssl s'.ssl_to_username }

  unfoldable pub authenticate_user : Inputs → Bytes → Controller p → Controller p
  unfolding new_session
  authenticate_user inputs username s = record s {
    auth_map = new_session inputs username s.auth_map;
  }

  unfoldable pub authenticate_validator : Inputs → Bytes → Controller p → Controller p
  unfolding new_session
  authenticate_validator inputs username s = record s {
    validator_map = new_session inputs username s.validator_map;
  }
