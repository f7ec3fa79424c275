-- ===== src/Tests/Machine.antt =====
-- A machine whose cipher puts the key before the text, whose keys of passwords are the passwords
-- filled to size, and the desk of a client whose ticket is to be saved.
use ticket_ist.Prelude.{
  ℕ, ◌≡◌, refl, true, false, Option, none, some, [], ◌∷◌, ◌++◌, Bytes, codes, arith, ◌==◌, ==_iff,
  if◌then◌else◌,
}
use mathlib.Core.Option.{some_inj}
use ticket_ist.Prelude.Int.{pos}
use ticket_ist.Crypto.{
  OpenSsl, CipherLaws, Decryption, decrypted, not_finalized, accepted, performed,
}
use ticket_ist.Text.Stream.{Stream}
use ticket_ist.Platform.{compute_sha256}
use ticket_ist.Client.{Client}
use ticket_ist.Client.Desk.{Machine, Desk}
use ticket_ist.Tests.Server.{fill, local}

abbrev pub strip : Bytes → Bytes → Decryption
strip [] s = decrypted s
strip (c ∷ key) [] = not_finalized
strip (c ∷ key) (d ∷ s) = let rest = strip key s in if c == d then rest else not_finalized

abbrev pub toy : OpenSsl
toy = record {
  encrypt = λ key iv text. some (key ++ text);
  decrypt = λ key iv s. strip key s;
  pbkdf2 = λ password rounds size. some (fill size password);
  private_pem = λ s. accepted;
  public_pem = λ s. accepted;
  rsa = λ key encrypt s. performed s;
}

strip-append : (key text : Bytes) → strip key (key ++ text) ≡ decrypted text
strip-append [] text = refl
strip-append (c ∷ key) text = ground (arith, ==_iff c c, strip-append key text)

pub toy-CipherLaws : CipherLaws toy
toy-CipherLaws = record {
  decrypts = λ key iv text sealed e.
      let e' : key ++ text ≡ sealed = some_inj.0 e in rw (← e') (strip-append key text);
}

abbrev pub desktop : Machine ℕ
desktop = record {
  openssl = toy;
  std_hash = λ s. 7;
  may_create = λ path. true;
  may_write = λ path. true;
  read_price = λ s. (none, s);
  any_char = 0;
  any_int = pos 0;
  any_price = 0;
}

abbrev pub random : ℕ → Option Bytes
random size = some (fill size [])

-- Ana, who is logged in, with her key and a file that is not the program's.
abbrev pub ana : Client
ana = record { username = codes "ana"; cookie = codes "COOKIE_x"; nonce = pos 42 }

abbrev pub sym_key : Bytes
sym_key = fill 32 (codes "key")

abbrev pub stream : Bytes → Stream
stream s = record { unread = s; eof = false; fail = false }

abbrev pub salt : Bytes
salt = codes "0000000000000007"

abbrev pub desk : Desk
desk = record {
  client = ana;
  hashed_password = compute_sha256 local (codes "pw" ++ salt);
  files = (codes "clients/ana/SymKey.key", sym_key) ∷ [];
  directories = codes "clients/ana" ∷ [];
  input = stream (codes "pw gala\ngala pw\n");
  output = [];
  sent = [];
  replies = [];
  draws = random ∷ random ∷ [];
}
