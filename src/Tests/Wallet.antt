-- ===== src/Tests/Wallet.antt =====
-- The files and the dialogues of the client, and the validator's program, at concrete values.
use ticket_ist.Prelude.{
  ◌≡◌, ◌≢◌, refl, true, false, some, [], ◌++◌, Bytes, codes, arith, ok, ap, ◌∙◌, is_empty, str_eq,
}
use ticket_ist.Prelude.Int.{pos, ◌+ℤ◌}
use ticket_ist.Prelude.Map.{lookup, contains}
use ticket_ist.Text.Input.{sentry, scan_word, read_word}
use ticket_ist.Text.Decimal.{skip_spaces, print_ℤ}
use ticket_ist.Platform.{compute_sha256, hex_digit}
use ticket_ist.Crypto.{protect_symetric}
use ticket_ist.Crypto.Keys.{key_derivation_function}
use ticket_ist.Ticket.Format
use ticket_ist.Ticket.{format_date}
use ticket_ist.Ticket.Code.{generate_validation_code}
use ticket_ist.Message.AcceptAuth
use ticket_ist.Message.AcceptAuth.{AcceptAuthMessage}
use ticket_ist.Client.Desk.{folder, is_directory, file_exists}
use ticket_ist.Client.Ask.{salted, generate_salt, key_path}
use ticket_ist.Client.Folder.{ticket_path, is_file_name}
use ticket_ist.Client.Wallet.Kept.{sealed}
use ticket_ist.Client.Wallet.Saved.{IsSaving}
use ticket_ist.Tests.Server.{local, fill, memory-IsReliable}
use ticket_ist.Tests.Shop.{service, now, draw, resold_info}
use ticket_ist.Service.Tickets
use ticket_ist.Service.Tickets.{buy_ticket, check_integrity}
use ticket_ist.Service.Tickets.Integrity.{success}
use ticket_ist.Floats.{whole_prices_laws}
use ticket_ist.Client.Wallet.{save_ticket, get_integrity_code, cut_integrity_code}
use ticket_ist.Client.Wallet.Codes.{shown, cut_integrity_code-integrity_code}
use ticket_ist.Client.Wallet.Saved.{saved_output}
use ticket_ist.Client.Wallet.Accepted.{check_integrity-get_integrity_code}
use ticket_ist.Ticket.Format.{IsPrintable}
use ticket_ist.Service.Tickets.Purchase.{bought}
use ticket_ist.Tests.Tickets.{few, listed, new_IsFresh, new_code, new_text, new_claim, new_claim_of}
use ticket_ist.Tests.Machine.{toy-CipherLaws, desktop, random, sym_key, stream, salt, desk}

abbrev message : AcceptAuthMessage
message = record {
  base = record { username = codes "ana"; session_cookies = codes "COOKIE_x"; nonce = pos 43 };
  message = new_text;
}

abbrev kdf : Bytes
kdf = fill 32 (codes "pw" ++ salt)

salt_of : generate_salt desktop (codes "ana") ≡ salt
unfolding generate_salt hex_digit
salt_of = refl

salted_of : salted local desktop 3 (codes "pw") desk ≡ codes "pw" ++ salt
salted_of = ap (λ s. codes "pw" ++ s) salt_of

some_text : is_empty new_text ≡ false
unfolding is_empty Format.serialize Tickets.ticket_of print_ℤ
some_text = refl

reads : AcceptAuth.deserialize (AcceptAuth.serialize message) ≡ ok message
reads =
    AcceptAuth.deserialize-serialize_accept_auth message (omega arith) (omega arith) (omega arith)
      some_text

saving :
    IsSaving local desktop 3
      (AcceptAuth.serialize message)
      new_text
      sym_key
      (codes "pw")
      kdf
      (fill 16 [])
      (fill 16 [])
      (codes "gala")
      (stream (codes " gala\ngala pw\n"))
      (stream (codes "\ngala pw\n"))
      random
      random
      []
      desk
unfolding read_word sentry scan_word skip_spaces is_empty lookup str_eq folder is_directory key_path
    ticket_path is_file_name file_exists contains key_derivation_function
saving = record {
  message = message;
  received_reads = reads;
  text_of = refl;
  folder_there = refl;
  keyed = refl;
  types = refl;
  not_empty = refl;
  matches = ap (compute_sha256 local) salted_of;
  derives = ap (λ s. ok (fill 32 s)) salted_of;
  draws_two = refl;
  drawn = refl;
  outer_drawn = refl;
  names = refl;
  is_name = refl;
  is_free = refl;
  may_write = refl;
}

printable : IsPrintable (bought local now draw (pos 7) (pos 1) (pos 3) resold_info)
unfolding Tickets.ticket_of generate_validation_code format_date print_ℤ ◌+ℤ◌
printable = record {
  ticket_id_fits = omega arith;
  event_id_fits = omega arith;
  seller_id_fits = omega arith;
  buyer_id_fits = omega arith;
  date_lacks = omega arith;
  seat_lacks = omega arith;
  code_lacks = omega arith;
}

encrypts : protect_symetric desktop.openssl (some (fill 16 [])) new_text sym_key ≢ []
unfolding protect_symetric
encrypts e = cc

outer_encrypts : sealed local desktop 3 (fill 16 []) (fill 16 []) new_text sym_key kdf ≢ []
unfolding protect_symetric
outer_encrypts e = cc

again : read_word [] (stream (codes "\ngala pw\n")) ≡ (codes "gala", stream (codes " pw\n"))
unfolding read_word sentry scan_word skip_spaces is_empty
again = refl

password_again : read_word [] (stream (codes " pw\n")) ≡ (codes "pw", stream (codes "\n"))
unfolding read_word sentry scan_word skip_spaces is_empty
password_again = refl

cuts : cut_integrity_code (compute_sha256 local new_text) ≡ ok new_claim
cuts = cut_integrity_code-integrity_code (compute_sha256 local new_text) ∙ new_claim_of

check_integrity-get_integrity_code_example :
    ((get_integrity_code local desktop 4
        (save_ticket local desktop 4 (AcceptAuth.serialize message) desk).1).1.output
      ≡ shown new_code new_claim (saved_output local desktop 3 (codes "gala") desk))
    × ((check_integrity local new_code new_claim
          (buy_ticket local now draw (pos 7) (pos 1) (pos 3) service).1).0
        ≡ ok (true, success))
check_integrity-get_integrity_code_example =
    check_integrity-get_integrity_code local desktop 3 memory-IsReliable whole_prices_laws
      toy-CipherLaws now draw (pos 7) (pos 1) (pos 3) resold_info service
      (AcceptAuth.serialize message) sym_key (codes "pw") kdf (fill 16 []) (fill 16 [])
      (codes "gala") new_claim (stream (codes " gala\ngala pw\n")) (stream (codes "\ngala pw\n"))
      (stream (codes " pw\n")) (stream (codes "\n")) random random [] desk few listed refl
      new_IsFresh printable saving refl refl encrypts outer_encrypts again password_again cuts
