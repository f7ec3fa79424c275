-- ===== src/Tests/Accounts.antt =====
-- Sign-up and log-in at the sample shop.
use ticket_ist.Prelude.{◌≡◌, refl, true, false, none, codes, str_eq}
use ticket_ist.Platform.{compute_sha256}
use ticket_ist.Database.Schema
use ticket_ist.Database.Schema.{same}
use ticket_ist.Service.Users.{sign_up, login_user}
use ticket_ist.Service.Users.Accounts.{account, login_user-sign_up, login_user-sign_up_other}
use ticket_ist.Tests.Server.{local, memory-IsReliable}
use ticket_ist.Tests.Shop.{tables}

free : account local (codes "rui") tables ≡ none
unfolding Schema.select_user str_eq
free = refl

login_user-sign_up_example :
    ((sign_up local (codes "rui") (codes "pw1") tables).0 ≡ true)
    × ((login_user local
          (codes "rui")
          (codes "pw2")
          (sign_up local (codes "rui") (codes "pw1") tables).1).0
        ≡ str_eq (compute_sha256 local (codes "pw1")) (compute_sha256 local (codes "pw2")))
login_user-sign_up_example =
    login_user-sign_up local memory-IsReliable (codes "rui") (codes "pw1") (codes "pw2") tables free

apart : same local.collate (codes "rui") (codes "ana") ≡ false
unfolding str_eq
apart = refl

login_user-sign_up_other_example :
    (login_user local
      (codes "ana")
      (codes "pw")
      (sign_up local (codes "rui") (codes "pw1") tables).1).0
    ≡ (login_user local (codes "ana") (codes "pw") tables).0
login_user-sign_up_other_example =
    login_user-sign_up_other local memory-IsReliable (codes "rui") (codes "pw1") (codes "ana")
      (codes "pw") tables apart
