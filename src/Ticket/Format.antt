-- ===== src/Ticket/Format.antt =====
-- `Ticket::serialize`, `Ticket::deserialize` and `TicketInfo::toString`, common/src/Ticket.
use ticket_ist.Prelude.{
  ℕ, zero, suc, ◌-◌, ◌≡◌, refl, [], ◌∷◌, ◌++◌, arith, Bytes, codes, length, Result, ok, ◌>>=◌,
  Lacks,
}
use ticket_ist.Prelude.Int.{ℤ}
use ticket_ist.Floats.{Floats, FloatLaws}
use ticket_ist.Text.Decimal.{print_ℤ, print_ℤ-Lacks, stoi, stoi-print_all, IsInt}
use ticket_ist.Text.Stream.{open_stream, get_line_into, get_line_into-append, get_line_into-last}
use ticket_ist.Ticket.{Ticket, TicketInfo}

-- `ss << a << "|" << b`
infixr 66 ◌|-◌
abbrev pub ◌|-◌ : Bytes → Bytes → Bytes
a |- b = a ++ b'|' ∷ b

abbrev bar : ℕ
bar = b'|'

-- `std::setw(w)`, which fills from the left
pad : ℕ → Bytes → Bytes
pad zero s = s
pad (suc k) s = b' ' ∷ pad k s

unfoldable pub setw : ℕ → Bytes → Bytes
unfolding pad
setw w s = pad (w - length s) s

-- The euro sign in UTF-8.
abbrev euro : Bytes
euro = 0xe2 ∷ 0x82 ∷ 0xac ∷ []

module _ (F : Floats) where
  unfoldable pub serialize : Ticket F.Price → Bytes
  serialize t =
      print_ℤ t.ticket_id
      |- print_ℤ t.event_id
      |- print_ℤ t.seller_id
      |- print_ℤ t.buyer_id
      |- t.purchase_date
      |- F.print t.price
      |- t.seat
      |- t.validation_code

  -- One `part` serves all numbers, and no read is tested: a read that fails at the end of the
  -- stream leaves the text of the read before it, which is then converted once more.
  unfoldable pub deserialize : Bytes → Result (Ticket F.Price)
  deserialize data_ = do
    let (p1, s1) = get_line_into bar [] (open_stream data_)
    ticket_id ← stoi p1
    let (p2, s2) = get_line_into bar p1 s1
    event_id ← stoi p2
    let (p3, s3) = get_line_into bar p2 s2
    seller_id ← stoi p3
    let (p4, s4) = get_line_into bar p3 s3
    buyer_id ← stoi p4
    let (purchase_date, s5) = get_line_into bar [] s4
    let (p6, s6) = get_line_into bar p4 s5
    price ← F.stod p6
    let (seat, s7) = get_line_into bar [] s6
    let (validation_code, s8) = get_line_into bar [] s7
    ok (record {
      ticket_id = ticket_id;
      event_id = event_id;
      seller_id = seller_id;
      buyer_id = buyer_id;
      price = price;
      seat = seat;
      validation_code = validation_code;
      purchase_date = purchase_date;
    })

  unfoldable pub to_string : TicketInfo F.Price → Bytes
  unfolding setw
  to_string i =
      setw 10 (print_ℤ i.ticket_id)
      ++ codes " | "
      ++ setw 10 (print_ℤ i.event_id)
      ++ codes " | "
      ++ setw 10 (print_ℤ i.seller_id)
      ++ codes " | "
      ++ setw 10 (F.print_fixed i.price)
      ++ euro
      ++ codes " | "
      ++ setw 5 i.seat

-- What the fields of a ticket must be for its text to be read back.
pub record IsPrintable {Price : Type 0} (t : Ticket Price) : Type 0 where
  pub ticket_id_fits : IsInt t.ticket_id
  pub event_id_fits : IsInt t.event_id
  pub seller_id_fits : IsInt t.seller_id
  pub buyer_id_fits : IsInt t.buyer_id
  pub date_lacks : Lacks bar t.purchase_date
  pub seat_lacks : Lacks bar t.seat
  pub code_lacks : Lacks bar t.validation_code

module _ (F : Floats) (laws : FloatLaws F) where
  number-Lacks : (n : ℤ) → Lacks bar (print_ℤ n)
  number-Lacks n = print_ℤ-Lacks bar (omega arith) refl n

  -- If a printed price has no separator and is read as one that prints alike, the text of a ticket
  -- is read back, all but its price, which prints alike; its four numbers are `int`s, and its date,
  -- seat and validation code hold no bar.
  pub deserialize-serialize_ticket :
      (t : Ticket F.Price)
      → IsPrintable t
      → (y : F.Price) × (deserialize F (serialize F t) ≡ ok (record t { price = y }))
        × (F.print y ≡ F.print t.price)
  unfolding deserialize serialize
  deserialize-serialize_ticket t h =
      let (y, reads, prints) = laws.print_stable t.price in
      (
        y,
        rw (get_line_into-append bar [] (print_ℤ t.ticket_id) _ (number-Lacks t.ticket_id)) (
            rw (stoi-print_all t.ticket_id h.ticket_id_fits) (
              rw
                (get_line_into-append bar (print_ℤ t.ticket_id) (print_ℤ t.event_id) _
                  (number-Lacks t.event_id))
                (rw (stoi-print_all t.event_id h.event_id_fits) (
                  rw
                    (get_line_into-append bar (print_ℤ t.event_id) (print_ℤ t.seller_id) _
                      (number-Lacks t.seller_id))
                    (rw (stoi-print_all t.seller_id h.seller_id_fits) (
                      rw
                        (get_line_into-append bar (print_ℤ t.seller_id) (print_ℤ t.buyer_id) _
                          (number-Lacks t.buyer_id))
                        (rw (stoi-print_all t.buyer_id h.buyer_id_fits) (
                          rw (get_line_into-append bar [] t.purchase_date _ h.date_lacks) (
                            rw
                              (get_line_into-append bar (print_ℤ t.buyer_id) (F.print t.price) _
                                (laws.lacks_bar t.price))
                              (rw reads (
                                rw (get_line_into-append bar [] t.seat _ h.seat_lacks) (
                                  rw (get_line_into-last bar [] t.validation_code h.code_lacks)
                                    refl)))))))))))),
        prints,
      )
