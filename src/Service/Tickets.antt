-- ===== src/Service/Tickets.antt =====
-- `class TicketService`, common/src/Services/TicketService.cpp.
pub mod Purchase
pub mod Validation
pub mod Lifecycle
pub mod Integrity
pub mod Resale
pub mod Limit
pub mod Outcomes
pub mod Handover
pub mod Kept
pub mod Transfer
pub mod Throws
pub mod Race
use ticket_ist.Prelude.{
  ℕ, ◌+◌, ◌-◌, Bool, true, false, not, ◌||◌, none, some, List, [], ◌∷◌, ◌++◌, Bytes, codes, str_eq,
  leb, length, take, drop, if◌then◌else◌, Exception, invalid_argument, out_of_range, Result, ok,
  throw,
}
use ticket_ist.Prelude.Int.{ℤ, ◌==ℤ◌}
use ticket_ist.Prelude.Action.{
  Action, pure, lift, or_raise, ◌>>=◌, ◌>>◌, raise_if, raise_unless, modify,
}
use ticket_ist.Platform.{Platform, compute_sha256}
use ticket_ist.Ticket.{Ticket, TicketInfo, Tm, format_date}
use ticket_ist.Ticket.Format
use ticket_ist.Ticket.Code.{generate_validation_code}
use ticket_ist.Repository.Tickets

abbrev pub max_owned : ℕ
max_owned = 6

abbrev pub too_many : Exception
too_many = invalid_argument (codes "You already own 6 tickets. You cannot buy more.")

abbrev pub not_available : Exception
not_available = invalid_argument (codes "Ticket not found. Please revise available tickets.")

abbrev pub no_longer_available : Exception
no_longer_available =
    invalid_argument (codes "Ticket is no longer available. Please revise available tickets.")

abbrev pub went_wrong : Exception
went_wrong = invalid_argument (codes "Something went wrong. Please try again.")

abbrev pub unknown_code : Bytes
unknown_code = codes "Ticket not found. Please revise the validation code."

abbrev pub in_use : Bytes
in_use = codes "Ticket is already in use."

abbrev compromised : Exception
compromised = invalid_argument (codes "Ticket integrity compromised. Please revise the ticket.")

abbrev invalid_price : Exception
invalid_price =
    invalid_argument
      (codes "Invalid price. Please provide a price greater than 0 and the current price.")

abbrev process_failed : Exception
process_failed = invalid_argument (codes "Process Failed")

-- The first five and the last five characters; `substr` throws where there are fewer than five.
unfoldable pub integrity_code : Bytes → Result Bytes
integrity_code h =
    if leb 5 (length h)
    then ok (take 5 h ++ drop (length h - 5) h)
    else throw (out_of_range (codes "basic_string::substr"))

module _ (p : Platform) where
  -- `cache[event].insert({ticket, info})`; the cache is written and never read.
  abbrev pub InfoCache : Type 0
  InfoCache = List (ℤ × List (ℤ × TicketInfo p.Price))

  insert_new :
      ℤ → TicketInfo p.Price → List (ℤ × TicketInfo p.Price) → List (ℤ × TicketInfo p.Price)
  insert_new i info [] = (i, info) ∷ []
  insert_new i info ((j, old) ∷ m) =
      let rest = insert_new i info m in if i ==ℤ j then (j, old) ∷ m else (j, old) ∷ rest

  cache_info : ℤ → ℤ → TicketInfo p.Price → InfoCache → InfoCache
  unfolding insert_new
  cache_info e i info [] = (e, (i, info) ∷ []) ∷ []
  cache_info e i info ((d, m) ∷ cache) =
      let rest = cache_info e i info cache in
      if e ==ℤ d then (d, insert_new i info m) ∷ cache else (d, m) ∷ rest

  pub record TicketService : Type 0 where
    pub conn : p.Conn
    pub tickets_info_cache : InfoCache

  -- a call of the repository
  abbrev repo : {A : Type 0} → (p.Conn → A × p.Conn) → Action TicketService A
  repo f s = let (a, c) = f s.conn in (ok a, record s { conn = c })

  abbrev repo_void : (p.Conn → p.Conn) → Action TicketService (Unit {0})
  repo_void f s = (ok tt, record s { conn = f s.conn })

  unfoldable pub get_all_available_tickets_by_event_id :
      ℤ → Action TicketService (List (TicketInfo p.Price))
  get_all_available_tickets_by_event_id e = repo (Tickets.get_all_tickets_from_event_id p e)

  -- The ticket that a purchase makes of the information in the shop.
  unfoldable pub ticket_of : Tm → Bytes → ℤ → TicketInfo p.Price → Ticket p.Price
  unfolding format_date
  ticket_of now val_code user info = record {
    ticket_id = info.ticket_id;
    event_id = info.event_id;
    seller_id = info.seller_id;
    buyer_id = user;
    price = info.price;
    seat = info.seat;
    validation_code = val_code;
    purchase_date = format_date now;
  }

  -- The clean-up of a ticket that was put on sale by its owner.
  unfoldable pub retire_old_ticket : ℤ → Action TicketService (Unit {0})
  retire_old_ticket i = do
    resold ← repo (Tickets.is_ticket_in_resell p i)
    if not resold then pure tt else do
      old ← repo (Tickets.get_old_ticket_val_code_hash p i)
      repo_void (Tickets.remove_ticket_from_resell p i)
      repo_void (Tickets.remove_ticket p old)

  -- The time and the draws of the generator are inputs.
  unfoldable pub buy_ticket : Tm → (ℕ → ℕ) → ℤ → ℤ → ℤ → Action TicketService (Ticket p.Price)
  buy_ticket now draw ticket_id event_id user_id = do
    owned ← repo (Tickets.get_nr_of_tickets_owned p user_id)
    raise_if (leb max_owned owned) too_many
    found ← repo (Tickets.get_ticket_info_by_id p ticket_id)
    info ← or_raise found not_available
    raise_unless (info.event_id ==ℤ event_id) not_available
    let val_code = generate_validation_code draw 10
    let ticket = ticket_of now val_code user_id info
    let val_code_hash = compute_sha256 p val_code
    let ticket_hash = compute_sha256 p (Format.serialize p.floats ticket)
    gone ← repo (Tickets.make_ticket_unavailable p ticket_id)
    raise_unless gone no_longer_available
    added ← repo (Tickets.add_new_ticket p val_code_hash ticket_hash ticket.seat user_id)
    raise_unless added went_wrong
    retire_old_ticket ticket.ticket_id
    pure ticket

  -- The result, and what the reference parameter `info` is left with.
  unfoldable pub validate_ticket : Bytes → Action TicketService (Bool × Bytes)
  validate_ticket validation_code = do
    let hash = compute_sha256 p validation_code
    found ← repo (Tickets.exists_ticket_with_validation_code p hash)
    elim found [
      | none ↦ pure (false, unknown_code)
      | some (info, used) ↦
          if used
          then pure (false, in_use)
          else do repo_void (Tickets.set_ticket_in_use p hash); pure (true, info)
    ]

  unfoldable pub check_integrity : Bytes → Bytes → Action TicketService (Bool × Bytes)
  unfolding str_eq
  check_integrity validation_code code = do
    let hash = compute_sha256 p validation_code
    found ← repo (Tickets.get_ticket_hash_by_validation_code p hash)
    elim found [
      | none ↦ pure (false, unknown_code)
      | some ticket_hash ↦ do
        real ← lift (integrity_code ticket_hash)
        if str_eq real code
            then pure (true, codes "Integrity check successful.")
            else pure (
              false,
              codes "Integrity check failed. Integrity of the ticket has been compromised.",
            )
    ]

  unfoldable pub sell_ticket : Bytes → p.Price → Action TicketService Bool
  unfolding str_eq cache_info
  sell_ticket text new_price = do
    t ← lift (Format.deserialize p.floats text)
    let hash = compute_sha256 p t.validation_code
    found ← repo (Tickets.get_ticket_hash_by_validation_code p hash)
    true_hash ← or_raise found (invalid_argument unknown_code)
    raise_unless (str_eq true_hash (compute_sha256 p (Format.serialize p.floats t))) compromised
    raise_if (p.less new_price p.zero_price || p.less t.price new_price) invalid_price
    let info : TicketInfo p.Price = record {
      ticket_id = t.ticket_id;
      event_id = t.event_id;
      seller_id = t.buyer_id;
      price = new_price;
      seat = t.seat;
    }
    listed ← repo (Tickets.add_ticket_info p info)
    raise_unless listed process_failed
    modify (λ s. record s {
      tickets_info_cache = cache_info t.event_id t.ticket_id info s.tickets_info_cache;
    })
    resold ← repo (Tickets.add_ticket_to_resell p hash t.ticket_id)
    raise_unless resold process_failed
    pure true
