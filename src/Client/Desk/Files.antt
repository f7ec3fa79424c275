-- ===== src/Client/Desk/Files.antt =====
-- The files under a dialog: none is written over where a path is new.
use ticket_ist.Prelude.{◌≡◌, false, some, Bytes, arith, str_eq, str_eq_iff}
use ticket_ist.Prelude.Map.{lookup, contains, lookup-insert}
use ticket_ist.Client.Desk.{Machine, Desk, create_directories, write_file, file_exists}
use ticket_ist.Client.Desk.Keeps.{Allows, Keeps}

-- Every file is still there with its contents.
abbrev pub IsKept : Desk → Desk → Type 0
IsKept d e =
    (path content : Bytes) → lookup path d.files ≡ some content → lookup path e.files ≡ some content

pub IsKept-Allows : Allows IsKept
IsKept-Allows = record {
  same = λ d path content h. h;
  chain = λ d e f p q path content h. q path content (p path content h);
  reads = λ d i path content h. h;
  writes = λ d o path content h. h;
  draws_ = λ d r path content h. h;
}

abbrev pub IsNew : Bytes → Desk → Type 0
IsNew path d = contains path d.files ≡ false

-- Every other file is still there with its contents.
abbrev pub IsKeptBut : Bytes → Desk → Desk → Type 0
IsKeptBut path d e =
    (other content : Bytes)
    → str_eq other path ≡ false
    → lookup other d.files ≡ some content
    → lookup other e.files ≡ some content

pub IsKeptBut-Allows : (path : Bytes) → Allows (IsKeptBut path)
IsKeptBut-Allows path = record {
  same = λ d other content ne h. h;
  chain = λ d e f p q other content ne h. q other content ne (p other content ne h);
  reads = λ d i other content ne h. h;
  writes = λ d o other content ne h. h;
  draws_ = λ d r other content ne h. h;
}

-- What keeps all files but one keeps all, if that one is not there.
pub IsKeptBut-IsKept : (path : Bytes) (d e : Desk) → IsNew path d → IsKeptBut path d e → IsKept d e
unfolding contains
IsKeptBut-IsKept path d e new but other content h =
    ground (arith, new, h, str_eq_iff other path, but other content)

pub file_exists-IsNew : (path : Bytes) (d : Desk) → file_exists path d ≡ false → IsNew path d
unfolding file_exists
file_exists-IsNew path d h = ground (arith, h)

module _ {Price : Type 0} (machine : Machine Price) where
  pub write_file-IsKept :
      (path text : Bytes) (d : Desk) → IsNew path d → IsKept d (write_file machine path text d).1
  unfolding write_file contains
  write_file-IsKept path text d new other content h =
      ground (arith, new, h, str_eq_iff other path, lookup-insert path other text d.files)

  pub write_file-Keeps : (path text : Bytes) → Keeps (IsKeptBut path) (write_file machine path text)
  unfolding write_file
  write_file-Keeps path text = record {
    at = λ d other content ne h. ground (arith, ne, h, lookup-insert path other text d.files);
  }

  pub create_directories-Keeps : (path : Bytes) → Keeps IsKept (create_directories machine path)
  unfolding create_directories
  create_directories-Keeps path = record { at = λ d other content h. ground (arith, h) }

  pub create_directories-KeepsBut :
      (path directory : Bytes) → Keeps (IsKeptBut path) (create_directories machine directory)
  unfolding create_directories
  create_directories-KeepsBut path directory = record {
    at = λ d other content ne h. ground (arith, h);
  }
