-- ===== src/Client/Wallet/Ends.antt =====
-- The questions for the name of a file end.
use ticket_ist.Prelude.{
  ℕ, ◌<◌, ◌≡◌, refl, List, [], ◌∷◌, ◌++◌, append_assoc, append-nil, Bytes, arith, length, codes,
  Bool-cases, inl, inr,
}
use ticket_ist.Platform.{Platform}
use ticket_ist.Text.Input.{read_word}
use ticket_ist.Text.Input.Progress.{read_word-IsShorter, read_word-IsSpent}
use ticket_ist.Client.Desk.{Machine, Desk, done, loop, continue, ◌>>=◌, ◌>>◌, folder, is_directory}
use ticket_ist.Client.Desk.Ends.{IsEnded, IsProgress, loop-IsEnded}
use ticket_ist.Client.Folder.{say_all, ticket_names, bulleted, counted, get_owned_tickets}
use ticket_ist.Client.Wallet.{ask_file_round, ask_file_name, file_name_round}

say_all_lem :
    (lines : List Bytes) (d : Desk)
    → say_all lines d ≡ (done tt, record d { output = d.output ++ lines })
unfolding say_all continue ◌>>◌
say_all_lem [] d = rw (append-nil d.output) refl
say_all_lem (line ∷ lines) d =
    let e = record d { output = d.output ++ line ∷ [] } in
    ground (arith, say_all_lem lines e, append_assoc d.output (line ∷ []) lines)

-- The list of the tickets is printed, and nothing is read.
get_owned_tickets_lem :
    (d : Desk)
    → (output : List Bytes) × (get_owned_tickets d ≡ (done tt, record d { output = output }))
unfolding get_owned_tickets continue ◌>>=◌ ◌>>◌
get_owned_tickets_lem d =
    let names = ticket_names (folder d.client.username) d.files in
    let listing = record d { output = d.output ++ counted names ∷ [] } in
    elim (Bool-cases (is_directory (folder d.client.username) d.directories)) [
      | inl there ↦ (
        (d.output ++ counted names ∷ []) ++ bulleted names,
        ground (arith, there, say_all_lem (bulleted names) listing),
      )
      | inr missing ↦ (d.output ++ codes "Application Data Not Found" ∷ [], ground (arith, missing))
    ]

module _ (p : Platform) (machine : Machine p.Price) (rounds : ℕ) where
  ask_file_round-IsProgress :
      (u : Unit {0}) (d : Desk) → IsProgress d (ask_file_round p machine rounds u d)
  unfolding ask_file_round continue ◌>>=◌ ◌>>◌
  ask_file_round-IsProgress u d =
      let e = record d { input = (read_word [] d.input).1 } in
      let f = record e {
        output = e.output ++ codes "Ticket does not exist. Please enter a valid ticket name." ∷ [];
      } in
      let (output, lists) = get_owned_tickets_lem f in
      ground (arith, lists, read_word-IsShorter [] d.input, read_word-IsSpent [] d.input)

  file_name_round-IsProgress :
      (old : Bytes) (d : Desk) → IsProgress d (file_name_round p machine rounds old d)
  unfolding file_name_round continue ◌>>=◌ ◌>>◌
  file_name_round-IsProgress old d =
      ground (arith, read_word-IsShorter old d.input, read_word-IsSpent old d.input)

  pub file_name-IsEnded :
      (d : Desk)
      → length d.input.unread < rounds
      → IsEnded (loop rounds (file_name_round p machine rounds) [] d)
        × IsEnded (ask_file_name p machine rounds d)
  unfolding ask_file_name
  file_name-IsEnded d enough = (
    loop-IsEnded (file_name_round p machine rounds) file_name_round-IsProgress rounds [] d enough,
    loop-IsEnded (ask_file_round p machine rounds) ask_file_round-IsProgress rounds tt d enough,
  )
