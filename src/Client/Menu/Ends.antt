-- ===== src/Client/Menu/Ends.antt =====
-- When the questions of the client end.
use ticket_ist.Prelude.{
  ℕ, ◌<◌, ◌≤◌, ◌≡◌, ◌⊎◌, refl, Option, none, some, [], Bytes, arith, length, inl, inr, true, false,
  ◌∷◌,
}
use ticket_ist.Platform.{Platform}
use ticket_ist.Text.Stream.{Stream}
use ticket_ist.Text.Input.Progress.{IsShorter, IsSpent, sentry-cases}
use ticket_ist.Client.Desk.{Machine, Desk, loop, continue, ◌>>=◌, ◌>>◌}
use ticket_ist.Client.Desk.Ends.{IsEnded, IsProgress, loop-IsEnded}
use ticket_ist.Client.Ask.{
  ask_for_event_name, ask_for_ticket_id, ask_for_credentials, generate_kdf_key_to_save_ticket,
  generate_kdf_key_to_decrypt_ticket,
}
use ticket_ist.Client.Ask.Ends.{
  ask_for_event_name-IsEnded, ask_for_ticket_id-IsEnded, ask_for_credentials-IsEnded,
  generate_kdf_key-IsEnded,
}
use ticket_ist.Client.Wallet.{ask_file_name, file_name_round}
use ticket_ist.Client.Wallet.Ends.{file_name-IsEnded}
use ticket_ist.Client.Menu.{converted, read_price, price_round, ask_for_price}

-- The conversion of a price takes the bytes that it reads, and puts none back.
pub record IsTaking {Price : Type 0} (machine : Machine Price) : Type 0 where
  pub takes :
      (s : Bytes) (x : Price)
      → (machine.read_price s).0 ≡ some x
      → length (machine.read_price s).1 < length s
  pub leaves : (s : Bytes) → length (machine.read_price s).1 ≤ length s

module _ {Price : Type 0} (machine : Machine Price) (taking : IsTaking machine) where
  converted_lem :
      (zero_price : Price) (before : Stream) (s : Bytes) (r : Option Price × Bytes)
      → ((x : Price) → r.0 ≡ some x → length r.1 < length s)
      → length r.1 ≤ length s
      → (((converted machine zero_price before r).1.fail ≡ true)
          ⊎ (length (converted machine zero_price before r).1.unread < length s))
        × (length (converted machine zero_price before r).1.unread ≤ length s)
  unfolding converted
  converted_lem zero_price before s (none, rest) less h = (inl refl, h)
  converted_lem zero_price before s (some x, rest) less h = (inr (less x refl), h)

  read_price-IsProgress :
      (zero_price old : Price) (ss : Stream)
      → IsShorter ss (read_price machine zero_price old ss).1
        × IsSpent ss (read_price machine zero_price old ss).1
  unfolding read_price
  read_price-IsProgress zero_price old ss = elim (sentry-cases ss) [
    | inl (bad, fails, shorter) ↦
        (inl (ground (arith, bad, fails)), ground (arith, bad, fails, shorter))
    | inr (c, s, (starts, good, word, shorter)) ↦
        let before : Stream = record { unread = c ∷ s; eof = false; fail = false } in
        let (less, no_more) =
          converted_lem zero_price before (c ∷ s) (machine.read_price (c ∷ s))
            (taking.takes (c ∷ s)) (taking.leaves (c ∷ s)) in
        (
          elim less [
            | inl failed ↦ inl (ground (arith, starts, failed))
            | inr taken ↦ inr (ground (arith, starts, taken, shorter))
          ],
          ground (arith, starts, good, no_more, shorter),
        )
  ]

module _ (p : Platform) (machine : Machine p.Price) (taking : IsTaking machine) (rounds : ℕ) where
  price_round-IsProgress :
      (old : p.Price) (d : Desk) → IsProgress d (price_round p machine rounds old d)
  unfolding price_round continue ◌>>=◌ ◌>>◌
  price_round-IsProgress old d =
      ground (arith, read_price-IsProgress machine taking p.zero_price old d.input)

  -- In as many rounds as there are bytes of input left, and one more, the questions of the client for an
  -- event, a ticket id, a price, a user name with its password, the two passwords of ticket files, and
  -- the name of a new and of an old file each have their answer, or the input has failed: it came to its
  -- end, or it did not hold the number asked for. The conversion of a price takes the bytes that it
  -- reads.
  pub questions-IsEnded :
      (d : Desk) (old : Bytes × Bytes)
      → length d.input.unread < rounds
      → IsEnded (ask_for_event_name p machine rounds d)
        × IsEnded (ask_for_ticket_id p machine rounds d)
        × IsEnded (ask_for_price p machine rounds d)
        × IsEnded (ask_for_credentials p machine rounds old d)
        × IsEnded (generate_kdf_key_to_save_ticket p machine rounds d)
        × IsEnded (generate_kdf_key_to_decrypt_ticket p machine rounds d)
        × IsEnded (loop rounds (file_name_round p machine rounds) [] d)
        × IsEnded (ask_file_name p machine rounds d)
  unfolding ask_for_price
  questions-IsEnded d old enough =
      let (saves, opens) = generate_kdf_key-IsEnded p machine rounds d enough in
      let (new_name, old_name) = file_name-IsEnded p machine rounds d enough in
      (
        ask_for_event_name-IsEnded p machine rounds d enough,
        ask_for_ticket_id-IsEnded p machine rounds d enough,
        loop-IsEnded (price_round p machine rounds) price_round-IsProgress rounds machine.any_price
            d enough,
        ask_for_credentials-IsEnded p machine rounds d enough old,
        saves,
        opens,
        new_name,
        old_name,
      )
