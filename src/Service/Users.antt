-- ===== src/Service/Users.antt =====
-- `class UserService`, common/src/Services/UserService.cpp.
pub mod Accounts
use ticket_ist.Prelude.{Bool, false, none, some, Bytes, codes, invalid_argument}
use ticket_ist.Prelude.Int.{ℤ, negsuc, ◌==ℤ◌}
use ticket_ist.Prelude.Action.{Action, pure, call, ◌>>=◌, ◌>>◌, raise_if}
use ticket_ist.Platform.{Platform, compute_sha256}
use ticket_ist.Repository.Users

module _ (p : Platform) where
  unfoldable pub sign_up : Bytes → Bytes → p.Conn → Bool × p.Conn
  sign_up username password c =
      let (found, c') = Users.find_user_by_username p username c in
      elim found [
        | some user ↦ (false, c')
        | none ↦ Users.create_user p username (compute_sha256 p password) c'
      ]

  unfoldable pub login_user : Bytes → Bytes → p.Conn → Bool × p.Conn
  login_user username password = Users.check_password p username (compute_sha256 p password)

  unfoldable pub login_validator : Bytes → Bytes → p.Conn → Bool × p.Conn
  login_validator username password =
      Users.check_validator_password p username (compute_sha256 p password)

  unfoldable pub get_user_id : Bytes → Action p.Conn ℤ
  get_user_id username = do
    id ← call (Users.get_user_id p username)
    raise_if (id ==ℤ negsuc 0) (invalid_argument (codes "User not found"))
    pure id
