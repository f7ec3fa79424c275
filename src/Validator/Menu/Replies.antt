-- ===== src/Validator/Menu/Replies.antt =====
-- The replies that a validator prints.
use ticket_ist.Prelude.{
  ◌≡◌, refl, true, false, [], ◌∷◌, ◌++◌, Bytes, arith, is_empty, str_eq_refl, str_eq_iff, ◌≢◌,
  Bool-cases, inl, inr, split_at-append, if◌then◌else◌,
}
use ticket_ist.Prelude.Int.{==ℤ_iff}
use ticket_ist.Text.Decimal.{IsInt, IsLong, stoi-print_all}
use ticket_ist.Message.Action.{ActionType, to_int, from_int, accept_auth, reject_auth}
use ticket_ist.Message.Wire.{◌:-◌, tag, IsField, print_ℤ-IsField}
use ticket_ist.Message.Authenticated.{AuthenticatedMessage}
use ticket_ist.Message.AcceptAuth
use ticket_ist.Message.AcceptAuth.{AcceptAuthMessage}
use ticket_ist.Message.RejectAuth
use ticket_ist.Message.RejectAuth.{RejectAuthMessage}
use ticket_ist.Client.Desk.{Desk, done, continue, ◌>>=◌}
use ticket_ist.Validator.{is_authentication_correct, get_action_type, signed}
use ticket_ist.Validator.Menu.{print_reply, ignored}

get_action_type-tag :
    (a : ActionType) (rest : Bytes) (d : Desk)
    → IsInt (to_int a)
    → from_int (to_int a) ≡ a
    → get_action_type (tag a :- rest) d ≡ (done a, d)
unfolding get_action_type continue ◌>>=◌
get_action_type-tag a rest d fits named = ground (
  arith,
  split_at-append b':' (tag a) rest (print_ℤ-IsField (to_int a)),
  stoi-print_all (to_int a) fits,
  named,
)

signed_correct : (d : Desk) → is_authentication_correct d.client (signed d) ≡ true
unfolding is_authentication_correct
signed_correct d = ground (
  arith,
  str_eq_refl d.client.username,
  str_eq_refl d.client.cookie,
  ==ℤ_iff d.client.nonce d.client.nonce,
)

accept_auth_action :
    (m : AcceptAuthMessage) (d : Desk)
    → get_action_type (AcceptAuth.serialize m) d ≡ (done accept_auth, d)
unfolding AcceptAuth.serialize from_int
accept_auth_action m d = get_action_type-tag accept_auth _ d (omega arith) refl

reject_auth_action :
    (m : RejectAuthMessage) (d : Desk)
    → get_action_type (RejectAuth.serialize m) d ≡ (done reject_auth, d)
unfolding RejectAuth.serialize from_int
reject_auth_action m d = get_action_type-tag reject_auth _ d (omega arith) refl

not_correct :
    (d : Desk) (base : AuthenticatedMessage)
    → base ≢ signed d
    → is_authentication_correct d.client base ≡ false
unfolding is_authentication_correct
not_correct d base other = elim (Bool-cases (is_authentication_correct d.client base)) [
  | inl correct ↦ absurd (
      other (
        ground (
          arith,
          correct,
          str_eq_iff d.client.username base.username,
          str_eq_iff d.client.cookie base.session_cookies,
          ==ℤ_iff d.client.nonce base.nonce,
        )))
  | inr fails ↦ fails
]

-- What the program prints of a reply.
abbrev printed : Desk → AuthenticatedMessage → Bytes → Bytes
printed d base text = if is_authentication_correct d.client base then text else ignored

module _ (d : Desk) (base : AuthenticatedMessage) (text : Bytes) (hu : IsField base.username)
    (hc : IsField base.session_cookies) (hn : IsLong base.nonce) (ht : is_empty text ≡ false) where
  prints_accept :
      print_reply (AcceptAuth.serialize (record { base = base; message = text })) d
      ≡ (done tt, record d { output = d.output ++ printed d base text ∷ [] })
  unfolding print_reply continue ◌>>=◌
  prints_accept =
      let m : AcceptAuthMessage = record { base = base; message = text } in
      ground (
        arith,
        accept_auth_action m d,
        AcceptAuth.base-serialize_accept_auth m hu hc hn,
        AcceptAuth.deserialize-serialize_accept_auth m hu hc hn ht,
      )

  prints_reject :
      print_reply (RejectAuth.serialize (record { base = base; message = text })) d
      ≡ (done tt, record d { output = d.output ++ printed d base text ∷ [] })
  unfolding print_reply continue ◌>>=◌
  prints_reject =
      let m : RejectAuthMessage = record { base = base; message = text } in
      ground (
        arith,
        reject_auth_action m d,
        RejectAuth.base-serialize_reject_auth m hu hc hn,
        RejectAuth.deserialize-serialize_reject_auth m hu hc hn ht,
      )

-- Of a reply that accepts or rejects a request a validator prints the text, if it is signed with the
-- user name, the cookie and the nonce of the session, and otherwise that it is ignored; nothing else
-- changes. The user names and the cookies hold no colon, the nonces are `long`s, and the text is not
-- empty.
pub print_reply-serialize :
    (d : Desk) (other : AuthenticatedMessage) (text : Bytes)
    → IsField d.client.username
    → IsField d.client.cookie
    → IsLong d.client.nonce
    → IsField other.username
    → IsField other.session_cookies
    → IsLong other.nonce
    → is_empty text ≡ false
    → other ≢ signed d
    → (print_reply (AcceptAuth.serialize (record { base = signed d; message = text })) d
        ≡ (done tt, record d { output = d.output ++ text ∷ [] }))
      × (print_reply (RejectAuth.serialize (record { base = signed d; message = text })) d
          ≡ (done tt, record d { output = d.output ++ text ∷ [] }))
      × (print_reply (AcceptAuth.serialize (record { base = other; message = text })) d
          ≡ (done tt, record d { output = d.output ++ ignored ∷ [] }))
      × (print_reply (RejectAuth.serialize (record { base = other; message = text })) d
          ≡ (done tt, record d { output = d.output ++ ignored ∷ [] }))
print_reply-serialize d other text hu hc hn ou oc on ht differs =
    let right = signed_correct d in
    let wrong = not_correct d other differs in
    let own = prints_accept d (signed d) text hu hc hn ht in
    let own' = prints_reject d (signed d) text hu hc hn ht in
    let strange = prints_accept d other text ou oc on ht in
    let strange' = prints_reject d other text ou oc on ht in
    ground (arith, right, wrong, own, own', strange, strange')
