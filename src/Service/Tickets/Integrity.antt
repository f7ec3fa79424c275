-- ===== src/Service/Tickets/Integrity.antt =====
-- `checkIntegrity`: the code that a buyer computes from the text of the ticket is accepted.
use ticket_ist.Prelude.{
  ℕ, ◌-◌, ◌<◌, ◌≡◌, ap, ◌∙◌, true, false, some, ◌++◌, Bytes, codes, arith, length, take, drop,
  str_eq, str_eq_refl, ok, if◌then◌else◌,
}
use ticket_ist.Prelude.Int.{ℤ}
use ticket_ist.Platform.{Platform, compute_sha256, length-hex}
use ticket_ist.Ticket.{TicketInfo, Tm}
use ticket_ist.Ticket.Format
use ticket_ist.Database.{first_row}
use ticket_ist.Database.Laws.{IsReliable}
use ticket_ist.Database.Schema
use ticket_ist.Database.Schema.{TicketRow}
use ticket_ist.Repository.Tickets.Answers
use ticket_ist.Service.Tickets.{TicketService, buy_ticket, check_integrity, integrity_code}
use ticket_ist.Service.Tickets.Purchase.{code, bought, bought_row, buy_ticket-succeeds}
use ticket_ist.Service.Tickets.Validation.{stored}
use ticket_ist.Service.Tickets.Lifecycle.{IsFresh, stored-after_purchase}

-- If the digest of a text has 32 bytes, cutting the integrity code out of its hash does not throw.
pub integrity_code-compute_sha256 :
    (p : Platform) (s : Bytes)
    → length (p.digest s) ≡ 32
    → (c : Bytes) × (integrity_code (compute_sha256 p s) ≡ ok c)
unfolding integrity_code compute_sha256
integrity_code-compute_sha256 p s h =
    let hash = compute_sha256 p s in
    (take 5 hash ++ drop (length hash - 5) hash, ground (arith, h, length-hex (p.digest s)))

abbrev pub success : Bytes
success = codes "Integrity check successful."

abbrev pub failure : Bytes
failure = codes "Integrity check failed. Integrity of the ticket has been compromised."

module _ (p : Platform) (R : IsReliable p.sql) where
  -- On a reliable server, for a validation code under whose hash a ticket is stored, an integrity
  -- code is accepted exactly if it is the one cut out of the stored hash, if it can be cut out; no
  -- table changes.
  pub check_integrity-stored :
      (val_code claim real : Bytes) (s : TicketService p) (r : TicketRow)
      → stored p val_code (p.tables s.conn) ≡ some r
      → integrity_code r.ticket_hash ≡ ok real
      → ((check_integrity p val_code claim s).0
          ≡ ok (if str_eq real claim then (true, success) else (false, failure)))
        × (p.tables (check_integrity p val_code claim s).1.conn ≡ p.tables s.conn)
  unfolding check_integrity
  check_integrity-stored val_code claim real s r found computes = ground (
    arith,
    found,
    computes,
    Answers.get_ticket_hash_by_validation_code_lem p R s.conn (compute_sha256 p val_code),
  )

  -- On a reliable server, if the buyer has fewer than six tickets, the ticket is listed under the
  -- id and the event asked for, and the new validation code is fresh, then a check right after the
  -- purchase accepts the integrity code that is cut out of the hash of the text of the ticket, if
  -- it can be cut out.
  pub check_integrity-buy_ticket :
      (now : Tm) (draw : ℕ → ℕ) (id event user : ℤ) (s : TicketService p)
      (info : TicketInfo p.Price) (claim : Bytes)
      → Schema.count_owned user (p.tables s.conn) < 6
      → first_row (some (Schema.select_info id (p.tables s.conn))) ≡ some info
      → info.event_id ≡ event
      → IsFresh p now draw id event user info.ticket_id (p.tables s.conn)
      → integrity_code
          (compute_sha256 p (Format.serialize p.floats (bought p now draw id event user info)))
        ≡ ok claim
      → (check_integrity p
          (code p now draw id event user)
          claim
          (buy_ticket p now draw id event user s).1).0
        ≡ ok (true, success)
  check_integrity-buy_ticket now draw id event user s info claim few listed at fresh computes =
      let s' = (buy_ticket p now draw id event user s).1 in
      let row = bought_row p now draw id event user info in
      let (done, tables) =
        buy_ticket-succeeds p now draw id event user R s info few listed at fresh.no_ticket in
      let found = stored-after_purchase p now draw id event user info (p.tables s.conn) fresh in
      ground (
        arith,
        check_integrity-stored (code p now draw id event user) claim claim s' row
            (ap (stored p (code p now draw id event user)) tables ∙ found) computes,
        str_eq_refl claim,
      )
