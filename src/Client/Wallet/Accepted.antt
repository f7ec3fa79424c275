-- ===== src/Client/Wallet/Accepted.antt =====
-- From the purchase to the door: the codes that the client shows are those that the server accepts.
use ticket_ist.Prelude.{
  ℕ, suc, ◌<◌, ◌≡◌, ◌≢◌, true, some, Option, List, [], ◌∙◌, Bytes, length, ok, sym,
}
use ticket_ist.Prelude.Int.{ℤ}
use ticket_ist.Floats.{FloatLaws}
use ticket_ist.Text.Stream.{Stream}
use ticket_ist.Text.Input.{read_word}
use ticket_ist.Platform.{Platform, compute_sha256}
use ticket_ist.Crypto.{CipherLaws, block_size, protect_symetric}
use ticket_ist.Ticket.{Ticket, TicketInfo, Tm}
use ticket_ist.Ticket.Format
use ticket_ist.Ticket.Format.{IsPrintable}
use ticket_ist.Database.{first_row}
use ticket_ist.Database.Laws.{IsReliable}
use ticket_ist.Database.Schema
use ticket_ist.Service.Tickets
use ticket_ist.Service.Tickets.{TicketService, buy_ticket, check_integrity}
use ticket_ist.Service.Tickets.Purchase.{code, bought}
use ticket_ist.Service.Tickets.Lifecycle.{IsFresh}
use ticket_ist.Service.Tickets.Integrity.{check_integrity-buy_ticket, success}
use ticket_ist.Client.Desk.{Machine, Desk}
use ticket_ist.Client.Wallet.{cut_integrity_code, save_ticket, get_integrity_code}
use ticket_ist.Client.Wallet.Kept.{sealed}
use ticket_ist.Client.Wallet.Saved.{IsSaving, saved_output}
use ticket_ist.Client.Wallet.Codes.{
  shown, cut_integrity_code-integrity_code, get_integrity_code-save_ticket,
}

module _ (p : Platform) (machine : Machine p.Price) (rounds : ℕ) (R : IsReliable p.sql)
    (laws : FloatLaws p.floats) (cipher : CipherLaws machine.openssl) (now : Tm) (draw_code : ℕ → ℕ)
    (id event user : ℤ) (info : TicketInfo p.Price) (s : TicketService p) where
  -- The ticket that is bought, and its text.
  abbrev pub ticket : Ticket p.Price
  ticket = bought p now draw_code id event user info

  abbrev pub text : Bytes
  text = Format.serialize p.floats ticket

  module _ (received sym_key password kdf iv outer_iv name claim : Bytes)
      (input after typed rest : Stream) (draw outer_draw : ℕ → Option Bytes)
      (draws : List (ℕ → Option Bytes)) (d : Desk) where
    -- On a reliable server, and with a cipher that decrypts what it encrypted: the buyer has fewer than
    -- six tickets, the ticket is listed under the id and the event asked for, and the new validation
    -- code is fresh; and the text of the bought ticket comes in a reply that `saveTicket` can save under
    -- the password of the account and a free file name. Then asking for its integrity code, with the
    -- same file name and password, shows the validation code of the ticket and a code that the server
    -- accepts for it. The numbers of the ticket are `int`s, its texts hold no bar, both initial vectors
    -- have 16 bytes, both encryptions succeed, and the code can be cut out of the hash.
    pub check_integrity-get_integrity_code :
        Schema.count_owned user (p.tables s.conn) < 6
        → first_row (some (Schema.select_info id (p.tables s.conn))) ≡ some info
        → info.event_id ≡ event
        → IsFresh p now draw_code id event user info.ticket_id (p.tables s.conn)
        → IsPrintable ticket
        → IsSaving p machine rounds received text sym_key password kdf iv outer_iv name input after
            draw outer_draw draws d
        → length iv ≡ block_size
        → length outer_iv ≡ block_size
        → protect_symetric machine.openssl (some iv) text sym_key ≢ []
        → sealed p machine rounds iv outer_iv text sym_key kdf ≢ []
        → read_word [] after ≡ (name, typed)
        → read_word [] typed ≡ (password, rest)
        → cut_integrity_code (compute_sha256 p text) ≡ ok claim
        → ((get_integrity_code p machine
              (suc rounds)
              (save_ticket p machine (suc rounds) received d).1).1.output
            ≡ shown
                (code p now draw_code id event user)
                claim
                (saved_output p machine rounds name d))
          × ((check_integrity p
                (code p now draw_code id event user)
                claim
                (buy_ticket p now draw_code id event user s).1).0
              ≡ ok (true, success))
    unfolding Tickets.ticket_of
    check_integrity-get_integrity_code few listed at fresh printable saving sized outer_sized
          encrypts outer_encrypts names types cuts =
        (
          get_integrity_code-save_ticket p machine rounds laws cipher ticket received sym_key
              password kdf iv outer_iv name claim input after typed rest draw outer_draw draws d
              printable saving sized outer_sized encrypts outer_encrypts names types cuts,
          check_integrity-buy_ticket p R now draw_code id event user s info claim few listed at
              fresh (sym (cut_integrity_code-integrity_code (compute_sha256 p text)) ∙ cuts),
        )
