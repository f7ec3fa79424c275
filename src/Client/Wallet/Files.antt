-- ===== src/Client/Wallet/Files.antt =====
-- No dialog writes over a file that is there, whatever is typed.
use ticket_ist.Prelude.{ℕ, [], Bytes, arith, str_eq_iff}
use ticket_ist.Prelude.Map.{contains, lookup-insert}
use ticket_ist.Platform.{Platform}
use ticket_ist.Client.Desk.{Machine, Desk, loop, continue, write_file, ◌>>=◌, ◌>>◌}
use ticket_ist.Client.Desk.Keeps.{Keeps, Keeps-loop, keeps_rules}
use ticket_ist.Client.Desk.Leaves.{OnRound, loop-OnDone, continue-on}
use ticket_ist.Client.Ask.Keeps.{generate_kdf_key_to_save_ticket-Keeps}
use ticket_ist.Client.Folder.{ticket_path}
use ticket_ist.Client.Wallet.{
  file_name_round, open_folder, store_ticket, start_save, try_save_ticket, save_ticket,
  write_ticket,
}
use ticket_ist.Client.Wallet.Keeps.{file_name_round-Keeps, encrypt_twice-Keeps}
use ticket_ist.Client.Desk.Files.{IsKept, IsKept-Allows, IsNew, create_directories-Keeps}

module _ (p : Platform) (machine : Machine p.Price) (rounds : ℕ) where
  -- The name that the loop is left with belongs to no file yet.
  abbrev IsFree : Bytes → Desk → Type 0
  IsFree name d = IsNew (ticket_path d.client.username name) d

  file_name_round-OnRound :
      (old : Bytes) (d : Desk) → OnRound IsFree (file_name_round p machine rounds old d)
  unfolding file_name_round ◌>>=◌ ◌>>◌ continue
  file_name_round-OnRound old d = ground arith

  write_ticket-IsKept :
      (sealed name : Bytes) (d : Desk)
      → IsFree name d
      → IsKept d (write_ticket p machine rounds sealed name d).1
  unfolding write_ticket write_file contains ◌>>=◌ continue
  write_ticket-IsKept sealed name d free other content h =
      let path = ticket_path d.client.username name in
      ground (arith, free, h, str_eq_iff other path, lookup-insert path other sealed d.files)

  store_ticket-Keeps : (sealed : Bytes) → Keeps IsKept (store_ticket p machine rounds sealed)
  unfolding store_ticket ◌>>=◌
  store_ticket-Keeps sealed = record {
    at = λ d.
        continue-on IsKept-Allows IsFree (write_ticket p machine rounds sealed) d
          (loop rounds (file_name_round p machine rounds) [] d)
          ((Keeps-loop IsKept-Allows (file_name_round p machine rounds)
              (file_name_round-Keeps IsKept-Allows p machine rounds) rounds []).at
            d)
          (loop-OnDone IsFree (file_name_round p machine rounds) file_name_round-OnRound rounds []
            d)
          (write_ticket-IsKept sealed);
  }

  open_folder-Keeps : Keeps IsKept (open_folder p machine rounds)
  unfolding open_folder
  open_folder-Keeps = search (keeps_rules, IsKept-Allows, create_directories-Keeps) depth 14

  start_save-Keeps : (received : Bytes) → Keeps IsKept (start_save p machine rounds received)
  unfolding start_save
  start_save-Keeps received = search (keeps_rules, IsKept-Allows, open_folder-Keeps) depth 20

  try_save_ticket-Keeps :
      (received : Bytes) → Keeps IsKept (try_save_ticket p machine rounds received)
  unfolding try_save_ticket
  try_save_ticket-Keeps received =
      search
        (
          keeps_rules, IsKept-Allows, start_save-Keeps, generate_kdf_key_to_save_ticket-Keeps,
          encrypt_twice-Keeps, store_ticket-Keeps,
        )
        depth 20

  pub save_ticket-Keeps : (received : Bytes) → Keeps IsKept (save_ticket p machine rounds received)
  unfolding save_ticket
  save_ticket-Keeps received = search (keeps_rules, IsKept-Allows, try_save_ticket-Keeps)
