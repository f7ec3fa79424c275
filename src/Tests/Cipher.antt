-- ===== src/Tests/Cipher.antt =====
-- The encryption at the sample cipher.
use ticket_ist.Prelude.{ℕ, ◌≡◌, ◌≢◌, refl, true, if◌then◌else◌, some, [], Bytes, codes, arith, ok}
use ticket_ist.Prelude.Int.{ℤ, pos, ◌==ℤ◌}
use ticket_ist.Crypto.Keys.{read_private_key, read_public_key}
use ticket_ist.Crypto.KeyPair.{
  Keygen, generated, size_refused, Disk, DiskLaws, write_pem, write_pair, generate_key_pair,
}
use ticket_ist.Crypto.KeyPair.Readable.{read_key-generate_key_pair}
use ticket_ist.Floats.{whole_prices, whole_prices_laws}
use ticket_ist.Ticket.{Ticket}
use ticket_ist.Ticket.Format.{IsPrintable}
use ticket_ist.Crypto.{protect_symetric, unprotect_symetric}
use ticket_ist.Crypto.Seal.{unprotect_symetric-protect_symetric}
use ticket_ist.Crypto.Tickets.{protect_ticket, unprotect_ticket, unprotect_ticket-protect_ticket}
use ticket_ist.Tests.Server.{fill}
use ticket_ist.Tests.Machine.{toy, toy-CipherLaws}

abbrev key : Bytes
key = fill 16 (codes "key")

abbrev iv : Bytes
iv = fill 16 []

sealed : protect_symetric toy (some iv) (codes "text") key ≢ []
unfolding protect_symetric
sealed e = cc

unprotect_symetric-protect_symetric_example :
    unprotect_symetric toy (protect_symetric toy (some iv) (codes "text") key) key
    ≡ ok (codes "text")
unprotect_symetric-protect_symetric_example =
    unprotect_symetric-protect_symetric toy toy-CipherLaws iv (codes "text") key refl sealed

abbrev ticket : Ticket ℕ
ticket = record {
  ticket_id = pos 7;
  event_id = pos 1;
  seller_id = pos 2;
  buyer_id = pos 3;
  price = 20;
  seat = codes "11C";
  validation_code = codes "Abc123";
  purchase_date = codes "2024-5-3 9:30:0";
}

printable : IsPrintable ticket
printable = record {
  ticket_id_fits = omega arith;
  event_id_fits = omega arith;
  seller_id_fits = omega arith;
  buyer_id_fits = omega arith;
  date_lacks = omega arith;
  seat_lacks = omega arith;
  code_lacks = omega arith;
}

sealed_ticket : protect_ticket whole_prices toy (some iv) ticket key ≢ []
unfolding protect_ticket protect_symetric
sealed_ticket e = cc

unprotect_ticket-protect_ticket_example :
    (y : ℕ) × (unprotect_ticket whole_prices toy
        (protect_ticket whole_prices toy (some iv) ticket key)
        key
      ≡ ok (record ticket { price = y }))
    × (whole_prices.print y ≡ whole_prices.print 20)
unprotect_ticket-protect_ticket_example =
    unprotect_ticket-protect_ticket whole_prices toy whole_prices_laws toy-CipherLaws iv key ticket
      refl printable sealed_ticket

abbrev disk : Disk
disk = record { may_open = λ path. true; pem_write = λ path text. (true, text) }

disk-DiskLaws : DiskLaws disk
disk-DiskLaws = record { writes_whole = λ path text h. refl }

-- Keys of 2048 bits.
abbrev keygen : ℤ → Keygen
keygen size =
    if size ==ℤ pos 2048 then generated (codes "private") (codes "public") else size_refused

apart : codes "private_key.pem" ≢ codes "public_key.pem"
apart e = cc

writes :
    (generate_key_pair disk keygen
      (codes "private_key.pem")
      (codes "public_key.pem")
      (pos 2048)
      []).0
    ≡ true
unfolding generate_key_pair write_pair write_pem
writes = refl

read_key-generate_key_pair_example :
    (read_private_key toy
        (generate_key_pair disk keygen
          (codes "private_key.pem")
          (codes "public_key.pem")
          (pos 2048)
          []).1
        (codes "private_key.pem")
      ≡ ok (codes "private"))
    × (read_public_key toy
          (generate_key_pair disk keygen
            (codes "private_key.pem")
            (codes "public_key.pem")
            (pos 2048)
            []).1
          (codes "public_key.pem")
        ≡ ok (codes "public"))
read_key-generate_key_pair_example =
    read_key-generate_key_pair disk disk-DiskLaws (codes "private_key.pem") (codes "public_key.pem")
      apart [] toy keygen (pos 2048) (codes "private") (codes "public") refl writes refl refl
