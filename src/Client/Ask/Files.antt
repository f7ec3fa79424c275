-- ===== src/Client/Ask/Files.antt =====
-- `generateSymetricKey` writes over no file.
use ticket_ist.Prelude.{ℕ, none, some, Option, Bytes, inl, inr, Bool-cases}
use ticket_ist.Platform.{Platform}
use ticket_ist.Crypto.Keys.{generate_key}
use ticket_ist.Client.Desk.{Machine, Dialog, file_exists, rand_bytes, ◌>>=◌, continue}
use ticket_ist.Client.Desk.Keeps.{Keeps, keeps_rules, Keeps-bind, Keeps-rand_bytes}
use ticket_ist.Client.Desk.Files.{
  IsKept, IsKept-Allows, IsKeptBut, IsKeptBut-Allows, IsKeptBut-IsKept, file_exists-IsNew,
  write_file-Keeps, create_directories-KeepsBut,
}
use ticket_ist.Client.Ask.{
  key_path, symmetric_key_exists, store_key, store_generated, generate_symetric_key,
}

module _ (p : Platform) (machine : Machine p.Price) (rounds : ℕ) where
  store_key-Keeps :
      (username key : Bytes)
      → Keeps (IsKeptBut (key_path username)) (store_key p machine rounds username key)
  unfolding store_key
  store_key-Keeps username key =
      search
        (
          keeps_rules,
          IsKeptBut-Allows (key_path username),
          write_file-Keeps,
          create_directories-KeepsBut,
        )
        depth 14

  store_generated-Keeps :
      (username : Bytes) (key : Option Bytes)
      → Keeps (IsKeptBut (key_path username)) (store_generated p machine rounds username key)
  store_generated-Keeps username none = record { at = λ d other content ne h. h }
  store_generated-Keeps username (some key) = record { at = (store_key-Keeps username key).at }

  abbrev draw_key : Bytes → Dialog (Unit {0})
  draw_key username d =
      (rand_bytes 32 >>= λ buffer. store_generated p machine rounds username (generate_key buffer))
        d

  draw_key-Keeps : (username : Bytes) → Keeps (IsKeptBut (key_path username)) (draw_key username)
  draw_key-Keeps username =
      Keeps-bind (IsKeptBut-Allows (key_path username)) (rand_bytes 32)
        (λ buffer. store_generated p machine rounds username (generate_key buffer))
        (Keeps-rand_bytes (IsKeptBut-Allows (key_path username)) 32)
        (λ buffer. store_generated-Keeps username (generate_key buffer))

  pub generate_symetric_key-Keeps : Keeps IsKept (generate_symetric_key p machine rounds)
  unfolding generate_symetric_key symmetric_key_exists ◌>>=◌ continue
  generate_symetric_key-Keeps = record {
    at = λ d. elim (Bool-cases (file_exists (key_path d.client.username) d)) [
      | inl e ↦ rw e (IsKept-Allows.same d)
      | inr e ↦ rw e (
          IsKeptBut-IsKept (key_path d.client.username) d (draw_key d.client.username d).1
            (file_exists-IsNew (key_path d.client.username) d e)
            ((draw_key-Keeps d.client.username).at d))
    ];
  }
