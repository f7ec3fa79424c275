-- ===== src/Client/Ask/Ends.antt =====
-- The questions at the terminal end.
use ticket_ist.Prelude.{ℕ, ◌<◌, [], Bytes, arith, length}
use ticket_ist.Prelude.Int.{ℤ}
use ticket_ist.Platform.{Platform}
use ticket_ist.Text.Input.{read_word}
use ticket_ist.Text.Input.Progress.{
  read_word-IsShorter, read_word-IsSpent, read_char-IsSpent, read_int-IsShorter, read_int-IsSpent,
}
use ticket_ist.Client.Desk.{
  Machine, Desk, Outcome, done, failed, exited, running, loop, continue, ◌>>=◌, ◌>>◌,
}
use ticket_ist.Client.Desk.Ends.{IsEnded, IsProgress, loop-IsEnded}
use ticket_ist.Client.Ask.{
  save_password_round, decrypt_password_round, event_name_round, ask_for_event_name,
  ticket_id_round, ask_for_ticket_id, credentials_round, ask_for_credentials, kdf_key,
  generate_kdf_key_to_save_ticket, generate_kdf_key_to_decrypt_ticket,
}

module _ (p : Platform) (machine : Machine p.Price) (rounds : ℕ) where
  event_name_round-IsProgress :
      (old : Bytes) (d : Desk) → IsProgress d (event_name_round p machine rounds old d)
  unfolding event_name_round continue ◌>>=◌ ◌>>◌
  event_name_round-IsProgress old d =
      ground (arith, read_word-IsShorter old d.input, read_word-IsSpent old d.input)

  decrypt_password_round-IsProgress :
      (old : Bytes) (d : Desk) → IsProgress d (decrypt_password_round p machine rounds old d)
  unfolding decrypt_password_round continue ◌>>=◌ ◌>>◌
  decrypt_password_round-IsProgress old d =
      ground (arith, read_word-IsShorter old d.input, read_word-IsSpent old d.input)

  save_password_round-IsProgress :
      (old : Bytes) (d : Desk) → IsProgress d (save_password_round p machine rounds old d)
  unfolding save_password_round continue ◌>>=◌ ◌>>◌
  save_password_round-IsProgress old d =
      let after = (read_word old d.input).1 in
      ground (
        arith,
        read_word-IsShorter old d.input,
        read_word-IsSpent old d.input,
        read_char-IsSpent machine.any_char after,
      )

  ticket_id_round-IsProgress :
      (old : ℤ) (d : Desk) → IsProgress d (ticket_id_round p machine rounds old d)
  unfolding ticket_id_round continue ◌>>=◌ ◌>>◌
  ticket_id_round-IsProgress old d =
      ground (arith, read_int-IsShorter old d.input, read_int-IsSpent old d.input)

  credentials_round-IsProgress :
      (old : Bytes × Bytes) (d : Desk) → IsProgress d (credentials_round p machine rounds old d)
  unfolding credentials_round continue ◌>>=◌ ◌>>◌
  credentials_round-IsProgress (username, password) d =
      let after = (read_word username d.input).1 in
      ground (
        arith,
        read_word-IsShorter username d.input,
        read_word-IsSpent username d.input,
        read_word-IsShorter password after,
        read_word-IsSpent password after,
      )

  module _ (d : Desk) (enough : length d.input.unread < rounds) where
    pub ask_for_event_name-IsEnded : IsEnded (ask_for_event_name p machine rounds d)
    unfolding ask_for_event_name
    ask_for_event_name-IsEnded =
        loop-IsEnded (event_name_round p machine rounds) event_name_round-IsProgress rounds [] d
          enough

    pub ask_for_ticket_id-IsEnded : IsEnded (ask_for_ticket_id p machine rounds d)
    unfolding ask_for_ticket_id
    ask_for_ticket_id-IsEnded =
        loop-IsEnded (ticket_id_round p machine rounds) ticket_id_round-IsProgress rounds
          machine.any_int d enough

    pub ask_for_credentials-IsEnded :
        (old : Bytes × Bytes) → IsEnded (ask_for_credentials p machine rounds old d)
    unfolding ask_for_credentials
    ask_for_credentials-IsEnded old =
        loop-IsEnded (credentials_round p machine rounds) credentials_round-IsProgress rounds old d
          enough

    new_password-IsEnded : IsEnded (loop rounds (save_password_round p machine rounds) [] d)
    new_password-IsEnded =
        loop-IsEnded (save_password_round p machine rounds) save_password_round-IsProgress rounds []
          d enough

    old_password-IsEnded : IsEnded (loop rounds (decrypt_password_round p machine rounds) [] d)
    old_password-IsEnded =
        loop-IsEnded (decrypt_password_round p machine rounds) decrypt_password_round-IsProgress
          rounds [] d enough

  -- Deriving a key ends, with it or with an exception.
  keyed : (x : Outcome Bytes × Desk) → IsEnded x → IsEnded (continue (kdf_key p machine rounds) x)
  unfolding continue kdf_key ◌>>=◌
  keyed (done password, d) h = ground arith
  keyed (failed e, d) h = tt
  keyed (exited, d) h = tt
  keyed (running, d) h = h

  pub generate_kdf_key-IsEnded :
      (d : Desk)
      → length d.input.unread < rounds
      → IsEnded (generate_kdf_key_to_save_ticket p machine rounds d)
        × IsEnded (generate_kdf_key_to_decrypt_ticket p machine rounds d)
  unfolding generate_kdf_key_to_save_ticket generate_kdf_key_to_decrypt_ticket ◌>>=◌
  generate_kdf_key-IsEnded d enough = (
    keyed (loop rounds (save_password_round p machine rounds) [] d) (new_password-IsEnded d enough),
    keyed (loop rounds (decrypt_password_round p machine rounds) [] d)
        (old_password-IsEnded d enough),
  )
