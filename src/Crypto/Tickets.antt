-- ===== src/Crypto/Tickets.antt =====
-- `TicketEncryption`, common/src/Crypto/TicketEncryption.cpp.
use ticket_ist.Prelude.{◌≡◌, ◌≢◌, Bool, Option, some, [], ◌>>=◌, Bytes, length, Result, ok}
use ticket_ist.Floats.{Floats, FloatLaws}
use ticket_ist.Ticket.{Ticket}
use ticket_ist.Ticket.Format
use ticket_ist.Ticket.Format.{IsPrintable, deserialize-serialize_ticket}
use ticket_ist.Crypto.{OpenSsl, CipherLaws, block_size, check, protect_symetric, unprotect_symetric}
use ticket_ist.Crypto.Seal.{unprotect_symetric-protect_symetric}

module _ (F : Floats) (o : OpenSsl) where
  unfoldable pub protect_ticket : Option Bytes → Ticket F.Price → Bytes → Bytes
  protect_ticket iv ticket key = protect_symetric o iv (Format.serialize F ticket) key

  unfoldable pub is_ticket_protected : Bytes → Bool
  is_ticket_protected encrypted_ticket = check encrypted_ticket

  unfoldable pub unprotect_ticket : Bytes → Bytes → Result (Ticket F.Price)
  unprotect_ticket encrypted_ticket key = do
    serialized_ticket ← unprotect_symetric o encrypted_ticket key
    Format.deserialize F serialized_ticket

  -- A ticket that is protected is given back, all but its price, which prints alike, under the same
  -- key: its text could be encrypted, its numbers are `int`s, its texts hold no bar, the initial
  -- vector has 16 bytes, the cipher decrypts what it encrypted, and a printed price is read back.
  pub unprotect_ticket-protect_ticket :
      (laws : FloatLaws F) (cipher : CipherLaws o) (iv key : Bytes) (t : Ticket F.Price)
      → length iv ≡ block_size
      → IsPrintable t
      → protect_ticket (some iv) t key ≢ []
      → (y : F.Price) × (unprotect_ticket (protect_ticket (some iv) t key) key
          ≡ ok (record t { price = y }))
        × (F.print y ≡ F.print t.price)
  unfolding protect_ticket unprotect_ticket
  unprotect_ticket-protect_ticket laws cipher iv key t size h sealed =
      rw (unprotect_symetric-protect_symetric o cipher iv (Format.serialize F t) key size sealed)
        (deserialize-serialize_ticket F laws t h)
