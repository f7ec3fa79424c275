-- ===== src/Tests/Tickets.antt =====
-- `TicketService` at the sample shop.
use ticket_ist.Prelude.{
  ◌-◌, ◌++◌, Bytes, str_eq, length, take, drop, ◌≡◌, refl, ◌<◌, true, false, some, ok, codes, arith,
}
use ticket_ist.Prelude.Int.{pos}
use ticket_ist.Platform.{compute_sha256, length-hex}
use mathlib.Core.Option.{some_inj}
use ticket_ist.Ticket.Format
use ticket_ist.Repository.Tickets
use ticket_ist.Database.{first_row, run_select}
use ticket_ist.Database.Schema.{ResellRow}
use ticket_ist.Database.Schema
use ticket_ist.Ticket.Code.{generate_validation_code}
use ticket_ist.Service.Tickets.{
  buy_ticket, validate_ticket, check_integrity, in_use, unknown_code, integrity_code,
}
use ticket_ist.Service.Tickets.Purchase.{code, bought}
use ticket_ist.Service.Tickets.Lifecycle.{IsFresh, validate_ticket-buy_ticket}
use ticket_ist.Service.Tickets.Validation.{
  stored, admission, validate_ticket-admission, validate_ticket_once,
}
use ticket_ist.Service.Tickets.Integrity.{success, check_integrity-buy_ticket}
use ticket_ist.Service.Tickets.Outcomes.{purchase_outcome, buy_ticket-purchase_outcome}
use ticket_ist.Service.Tickets.Handover.{validate_ticket-buy_ticket_resold}
use ticket_ist.Tests.Server.{local, memory-IsReliable, length-fill}
use ticket_ist.Tests.Shop.{tables, service, now, draw, resold_info, old_code, old_resale, old_row}

abbrev pub first_last : Bytes → Bytes
first_last h = take 5 h ++ drop (length h - 5) h

pub few : Schema.count_owned (pos 3) tables < 6
unfolding Schema.count_owned
few = omega arith

pub listed : first_row (some (Schema.select_info (pos 7) tables)) ≡ some resold_info
unfolding Schema.select_info
listed = refl

abbrev pub new_code : Bytes
new_code = code local now draw (pos 7) (pos 1) (pos 3)

fresh :
    Schema.any_row (Schema.has_code local.collate (compute_sha256 local new_code)) tables.ticket
    ≡ false
unfolding Schema.any_row generate_validation_code compute_sha256 str_eq
fresh = refl

apart :
    (r : ResellRow)
    → first_row (some (Schema.select_resell (pos 7) tables)) ≡ some r
    → Schema.same local.collate (compute_sha256 local new_code) r.hash_val_code ≡ false
unfolding Schema.select_resell generate_validation_code compute_sha256 str_eq
apart r h = let e = some_inj.0 h in rw (← e) refl

pub new_IsFresh : IsFresh local now draw (pos 7) (pos 1) (pos 3) (pos 7) tables
new_IsFresh = record { no_ticket = fresh; no_resale = apart }

validate_ticket-buy_ticket_example :
    (validate_ticket local new_code (buy_ticket local now draw (pos 7) (pos 1) (pos 3) service).1).0
    ≡ ok (true, codes "11C")
validate_ticket-buy_ticket_example =
    validate_ticket-buy_ticket local now draw (pos 7) (pos 1) (pos 3) memory-IsReliable service
      resold_info few listed refl new_IsFresh

validate_ticket-admission_example :
    ((validate_ticket local old_code service).0 ≡ ok (admission local old_code tables).0)
    × ((validate_ticket local old_code service).1.conn ≡ (admission local old_code tables).1)
validate_ticket-admission_example =
    validate_ticket-admission local memory-IsReliable old_code service

let_in : (validate_ticket local old_code service).0 ≡ ok (true, codes "11C")
unfolding validate_ticket Schema.select_ticket compute_sha256 str_eq
    Tickets.exists_ticket_with_validation_code run_select
let_in = refl

validate_ticket_once_example :
    (validate_ticket local old_code (validate_ticket local old_code service).1).0
    ≡ ok (false, in_use)
validate_ticket_once_example =
    validate_ticket_once local old_code memory-IsReliable service (codes "11C") let_in

found : stored local old_code tables ≡ some old_row
unfolding Schema.select_ticket compute_sha256 str_eq
found = refl

old_code_of : integrity_code old_row.ticket_hash ≡ ok (codes "01234bcdef")
unfolding integrity_code
old_code_of = refl

abbrev pub new_text : Bytes
new_text = Format.serialize local.floats (bought local now draw (pos 7) (pos 1) (pos 3) resold_info)

abbrev pub new_claim : Bytes
new_claim = first_last (compute_sha256 local new_text)

pub new_claim_of : integrity_code (compute_sha256 local new_text) ≡ ok new_claim
unfolding integrity_code compute_sha256
new_claim_of = ground (arith, length-hex (local.digest new_text), length-fill 32 new_text)

check_integrity-buy_ticket_example :
    (check_integrity local new_code new_claim
      (buy_ticket local now draw (pos 7) (pos 1) (pos 3) service).1).0
    ≡ ok (true, success)
check_integrity-buy_ticket_example =
    check_integrity-buy_ticket local memory-IsReliable now draw (pos 7) (pos 1) (pos 3) service
      resold_info new_claim few listed refl new_IsFresh new_claim_of

buy_ticket-purchase_outcome_example :
    ((buy_ticket local now draw (pos 7) (pos 1) (pos 3) service).0
      ≡ (purchase_outcome local now draw (pos 7) (pos 1) (pos 3) tables).0)
    × ((buy_ticket local now draw (pos 7) (pos 1) (pos 3) service).1.conn
        ≡ (purchase_outcome local now draw (pos 7) (pos 1) (pos 3) tables).1)
buy_ticket-purchase_outcome_example =
    buy_ticket-purchase_outcome local now draw (pos 7) (pos 1) (pos 3) memory-IsReliable service

resold_row : first_row (some (Schema.select_resell (pos 7) tables)) ≡ some old_resale
unfolding Schema.select_resell
resold_row = refl

validate_ticket-buy_ticket_resold_example :
    (validate_ticket local old_code (buy_ticket local now draw (pos 7) (pos 1) (pos 3) service).1).0
    ≡ ok (false, unknown_code)
validate_ticket-buy_ticket_resold_example =
    validate_ticket-buy_ticket_resold local now draw (pos 7) (pos 1) (pos 3) resold_info
      memory-IsReliable service old_resale old_code few listed refl new_IsFresh resold_row refl
