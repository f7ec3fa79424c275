-- ===== src/Tests/Dialogs.antt =====
-- The dialogues of the client and the validator at concrete inputs.
use ticket_ist.Prelude.{
  ℕ, none, Option, length, ◌<◌, ◌≤◌, ◌≡◌, ◌≢◌, ◌↔◌, refl, Bool, true, false, some, [], ◌∷◌, Bytes,
  codes, arith, is_empty, str_eq,
}
use ticket_ist.Prelude.Int.{pos}
use ticket_ist.Prelude.Map.{lookup}
use ticket_ist.Text.Input.{sentry, read_int, scan_int, scan_digits, with_rest, drop_digits}
use ticket_ist.Text.Decimal.{skip_spaces, starts_digit}
use ticket_ist.Message.Authenticated.{AuthenticatedMessage}
use ticket_ist.Message.AcceptAuth
use ticket_ist.Message.RejectAuth
use ticket_ist.Client.Desk.{Machine, Desk, done, running, loop}
use ticket_ist.Client.Desk.Ends.{IsEnded}
use ticket_ist.Client.Ask.{
  ask_for_event_name, ask_for_ticket_id, ask_for_credentials, generate_kdf_key_to_save_ticket,
  generate_kdf_key_to_decrypt_ticket,
}
use ticket_ist.Client.Wallet.{ask_file_name, file_name_round}
use ticket_ist.Client.Menu.Ends.{IsTaking, questions-IsEnded}
use ticket_ist.Client.Menu.{ask_purchase, ask_for_price}
use ticket_ist.Client.Program.{client_program}
use ticket_ist.Client.Program.Files.{client_program-lookup}
use ticket_ist.Communication.Sockets.{ClientCalls, Held}
use ticket_ist.Client.Menu.Mistyped.{ask_purchase-running}
use ticket_ist.Validator.{try_log_in, authenticate}
use ticket_ist.Validator.Attempts.{authenticate_first}
use ticket_ist.Validator.Menu.{print_reply, ignored}
use ticket_ist.Validator.Menu.Replies.{print_reply-serialize}
use ticket_ist.Tests.Server.{local}
use ticket_ist.Tests.Machine.{desktop, desk, stream, sym_key}

abbrev types : Bytes → Desk
types text = record desk { input = stream text }

abbrev client_calls : ClientCalls
client_calls = record {
  new_context = true;
  loads_ca = true;
  socket = true;
  inet_pton = true;
  connects = true;
  new_ssl = true;
  handshakes = true;
}

abbrev held : Held
held = record { sockets = 3; contexts = 0; ssls = 0 }

key_there : lookup (codes "clients/ana/SymKey.key") desk.files ≡ some sym_key
unfolding lookup str_eq
key_there = refl

client_program-lookup_example :
    lookup
      (codes "clients/ana/SymKey.key")
      (client_program local desktop 5 client_calls held
        (codes "-bypass" ∷ [])
        (types (codes "2\n7 Gala\n8\n"))).1.files
    ≡ some sym_key
client_program-lookup_example =
    client_program-lookup local desktop 5 client_calls held (codes "-bypass" ∷ [])
      (types (codes "2\n7 Gala\n8\n")) (codes "clients/ana/SymKey.key") sym_key key_there

-- A machine on which the price is the next byte.
abbrev next_byte : Bytes → Option ℕ × Bytes
next_byte [] = (none, [])
next_byte (c ∷ s) = (some c, s)

abbrev reader : Machine ℕ
reader = record desktop { read_price = next_byte }

takes : (s : Bytes) (x : ℕ) → (next_byte s).0 ≡ some x → length (next_byte s).1 < length s
takes [] x h = absurd (ground (arith, h))
takes (c ∷ s) x h = omega arith

leaves : (s : Bytes) → length (next_byte s).1 ≤ length s
leaves [] = omega arith
leaves (c ∷ s) = omega arith

reader-IsTaking : IsTaking reader
reader-IsTaking = record { takes = takes; leaves = leaves }

questions-IsEnded_example :
    IsEnded (ask_for_event_name local reader 9 (types (codes " Gala 7")))
    × IsEnded (ask_for_ticket_id local reader 9 (types (codes " Gala 7")))
    × IsEnded (ask_for_price local reader 9 (types (codes " Gala 7")))
    × IsEnded (ask_for_credentials local reader 9 ([], []) (types (codes " Gala 7")))
    × IsEnded (generate_kdf_key_to_save_ticket local reader 9 (types (codes " Gala 7")))
    × IsEnded (generate_kdf_key_to_decrypt_ticket local reader 9 (types (codes " Gala 7")))
    × IsEnded (loop 9 (file_name_round local reader 9) [] (types (codes " Gala 7")))
    × IsEnded (ask_file_name local reader 9 (types (codes " Gala 7")))
questions-IsEnded_example =
    questions-IsEnded local reader reader-IsTaking 9 (types (codes " Gala 7")) ([], [])
      (omega arith)

letters : (read_int desktop.any_int (types (codes "seven Gala\n")).input).1.fail ≡ true
unfolding read_int sentry scan_int scan_digits with_rest skip_spaces starts_digit drop_digits
letters = refl

ask_purchase-running_example :
    ((ask_purchase local desktop 9 (types (codes "seven Gala\n"))).0 ≡ running)
    × ((ask_purchase local desktop 9 (types (codes "seven Gala\n"))).1.sent ≡ [])
ask_purchase-running_example =
    ask_purchase-running local desktop 9 (types (codes "seven Gala\n")) letters

abbrev reply_base : AuthenticatedMessage
reply_base = record { username = codes "ana"; session_cookies = codes "COOKIE_x"; nonce = pos 42 }

some_text : is_empty (codes "1A") ≡ false
unfolding is_empty
some_text = refl

-- A reply with an old nonce.
abbrev old_base : AuthenticatedMessage
old_base = record reply_base { nonce = pos 41 }

not_signed : old_base ≢ reply_base
not_signed e = ground (arith, e)

print_reply-serialize_example :
    (print_reply (AcceptAuth.serialize (record { base = reply_base; message = codes "1A" })) desk
      ≡ (done tt, record desk { output = codes "1A" ∷ [] }))
    × (print_reply (RejectAuth.serialize (record { base = reply_base; message = codes "1A" })) desk
        ≡ (done tt, record desk { output = codes "1A" ∷ [] }))
    × (print_reply (AcceptAuth.serialize (record { base = old_base; message = codes "1A" })) desk
        ≡ (done tt, record desk { output = ignored ∷ [] }))
    × (print_reply (RejectAuth.serialize (record { base = old_base; message = codes "1A" })) desk
        ≡ (done tt, record desk { output = ignored ∷ [] }))
print_reply-serialize_example =
    print_reply-serialize desk old_base (codes "1A") (omega arith) (omega arith) (omega arith)
      (omega arith) (omega arith) (omega arith) some_text not_signed

authenticate_first_example :
    ((authenticate desktop 3 2 desk).0 ≡ done (some true))
    ↔ (((try_log_in desktop 3 desk).0 ≡ done true) × (◌≡◌ {A = Bool} true true))
authenticate_first_example = authenticate_first desktop 3 1 true desk
