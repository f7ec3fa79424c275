-- ===== src/Client/Menu/Mistyped.antt =====
-- What the menu does with a number that cannot be read.
use ticket_ist.Prelude.{
  ℕ, zero, suc, ◌≡◌, ◌⊎◌, refl, ◌∙◌, true, false, none, [], ◌∷◌, ◌++◌, Bytes, arith, is_empty,
  codes, Bool-cases, inl, inr,
}
use ticket_ist.Prelude.Int.{ℤ}
use ticket_ist.Platform.{Platform}
use ticket_ist.Text.Stream.{Stream}
use ticket_ist.Text.Input.{sentry, stopped_at, read_int, read_word-fail}
use ticket_ist.Client.Desk.{Machine, Desk, done, running, loop, continue, ◌>>=◌, ◌>>◌}
use ticket_ist.Client.Ask.{
  event_name_round, ask_for_event_name, negative, ticket_id_round, ask_for_ticket_id,
}
use ticket_ist.Client.Desk.Keeps.{Allows, Keeps, keeps_rules}
use ticket_ist.Client.Ask.Keeps.{ask_for_event_name-Keeps, ask_for_ticket_id-Keeps}
use ticket_ist.Message.Action.{ActionType}
use ticket_ist.Message.Authenticated.{AuthenticatedMessage}
use ticket_ist.Client.Menu.{
  price_round, ask_for_price, ask_purchase, signed_request, read_price, converted,
}

-- Nothing more was sent.
abbrev SameSent : Desk → Desk → Type 0
SameSent d e = e.sent ≡ d.sent

SameSent-Allows : Allows SameSent
SameSent-Allows = record {
  same = λ d. refl;
  chain = λ d e f first next. next ∙ first;
  reads = λ d i. refl;
  writes = λ d o. refl;
  draws_ = λ d r. refl;
}

read_int-fail : (old : ℤ) (ss : Stream) → ss.fail ≡ true → read_int old ss ≡ (old, ss)
unfolding read_int sentry
read_int-fail old ss h = ground (arith, h)

module _ (p : Platform) (machine : Machine p.Price) (rounds : ℕ) where
  -- No word comes from an input that failed, and the loop asks for one for ever.
  event_name_stuck :
      (left : ℕ) (d : Desk)
      → d.input.fail ≡ true
      → (loop left (event_name_round p machine rounds) [] d).0 ≡ running
  unfolding loop event_name_round is_empty continue ◌>>=◌ ◌>>◌
  event_name_stuck zero d h = refl
  event_name_stuck (suc left) d h =
      let e = record d {
        output = d.output ++ codes "Event name cannot be empty. Please enter again." ∷ [];
      } in
      ground (arith, read_word-fail [] d.input h, event_name_stuck left e h)

  ticket_id_stuck :
      (left : ℕ) (old : ℤ) (d : Desk)
      → d.input.fail ≡ true
      → negative old ≡ true
      → (loop left (ticket_id_round p machine rounds) old d).0 ≡ running
  unfolding loop ticket_id_round continue ◌>>=◌ ◌>>◌
  ticket_id_stuck zero old d h below = refl
  ticket_id_stuck (suc left) old d h below =
      let e = record d {
        output = d.output ++ codes "Ticket ID cannot be negative. Please enter again." ∷ [];
      } in
      ground (arith, read_int-fail old d.input h, below, ticket_id_stuck left old e h below)

  -- The question for the id goes on for ever too, or gives a number with the input failed.
  ticket_id_mistyped :
      (left : ℕ) (old : ℤ) (d : Desk)
      → (read_int old d.input).1.fail ≡ true
      → ((loop left (ticket_id_round p machine rounds) old d).0 ≡ running)
        ⊎ (loop left (ticket_id_round p machine rounds) old d
            ≡ (done (read_int old d.input).0, record d { input = (read_int old d.input).1 }))
  unfolding loop ticket_id_round continue ◌>>=◌ ◌>>◌
  ticket_id_mistyped zero old d h = inl refl
  ticket_id_mistyped (suc left) old d h =
      let (n, input) = read_int old d.input in
      let e = record d {
        input = input;
        output = d.output ++ codes "Ticket ID cannot be negative. Please enter again." ∷ [];
      } in
      elim (Bool-cases (negative n)) [
        | inl below ↦ inl (ground (arith, below, ticket_id_stuck left n e h below))
        | inr fine ↦ inr (ground (arith, fine))
      ]

  signed_request-Keeps :
      (action : ActionType) (text : AuthenticatedMessage → Bytes)
      → Keeps SameSent (signed_request p machine rounds action text)
  signed_request-Keeps action text = record { at = λ d. refl }

  ask_purchase-Keeps : Keeps SameSent (ask_purchase p machine rounds)
  unfolding ask_purchase
  ask_purchase-Keeps =
      search
        (
          keeps_rules, SameSent-Allows, ask_for_event_name-Keeps, ask_for_ticket_id-Keeps,
          signed_request-Keeps,
        )
        depth 14

  -- If the id of the ticket to buy cannot be read, for instance because letters were typed, the
  -- purchase goes on for ever, however many rounds its loops are given, and nothing is sent.
  pub ask_purchase-running :
      (d : Desk)
      → (read_int machine.any_int d.input).1.fail ≡ true
      → ((ask_purchase p machine rounds d).0 ≡ running)
        × ((ask_purchase p machine rounds d).1.sent ≡ d.sent)
  unfolding ask_purchase ask_for_ticket_id ask_for_event_name continue ◌>>=◌ ◌>>◌
  ask_purchase-running d h =
      let d' = record d { output = d.output ++ codes "BUY TICKET" ∷ [] } in
      let (n, input) = read_int machine.any_int d.input in
      let e = record d' { input = input } in
      elim (ticket_id_mistyped rounds machine.any_int d' h) [
        | inl stuck ↦ (ground (arith, stuck), ask_purchase-Keeps.at d)
        | inr given ↦ (ground (arith, given, event_name_stuck rounds e h), ask_purchase-Keeps.at d)
      ]

  -- If the price asked for cannot be read, the answer is the price 0, provided that 0 is not below
  -- itself, and the input has failed.
  pub ask_for_price-zero :
      (d : Desk) (rest : Bytes) (ss : Stream)
      → sentry d.input ≡ (true, ss)
      → machine.read_price ss.unread ≡ (none, rest)
      → p.less p.zero_price p.zero_price ≡ false
      → ask_for_price p machine (suc rounds) d
        ≡ (done p.zero_price, record d { input = stopped_at true rest })
  unfolding ask_for_price loop price_round read_price converted continue ◌>>=◌ ◌>>◌
  ask_for_price-zero d rest ss starts mistyped fine = ground (arith, starts, mistyped, fine)
