-- ===== src/Client/Folder.antt =====
-- The folder of a user, Client.cpp: the names of ticket files, and `getOwnedTickets`. A path stands for
-- one file, and the files of a folder come in the order of the map, where the source leaves the order
-- open.
use ticket_ist.Prelude.{
  ℕ, Bool, true, ◌&&◌, ◌||◌, Option, none, some, List, [], ◌∷◌, ◌++◌, Bytes, codes, is_empty, find,
  length, leb, ◌==◌, if◌then◌else◌,
}
use ticket_ist.Prelude.Map.{Map}
use ticket_ist.Text.Decimal.{print_ℕ}
use ticket_ist.Client.Desk.{Dialog, pure, look, say, folder, is_directory, ◌>>=◌, ◌>>◌}

-- `"clients/" + username + "/" + name + ".txt"`
unfoldable pub ticket_path : Bytes → Bytes → Bytes
unfolding folder
ticket_path username name = folder username ++ b'/' ∷ name ++ codes ".txt"

abbrev pub is_name_char : ℕ → Bool
is_name_char c =
    (leb b'a' c && leb c b'z')
    || (leb b'A' c && leb c b'Z')
    || (leb b'0' c && leb c b'9')
    || (c == 95)
    || (c == b'-')

-- `name.find_first_not_of(…) == std::string::npos`
unfoldable pub is_file_name : Bytes → Bool
is_file_name [] = true
is_file_name (c ∷ s) = let rest = is_file_name s in is_name_char c && rest

starts_with : Bytes → Bytes → Option Bytes
starts_with [] s = some s
starts_with (c ∷ t) [] = none
starts_with (c ∷ t) (d ∷ s) = let rest = starts_with t s in if c == d then rest else none

-- `s.find(t) != std::string::npos`
unfoldable pub holds : Bytes → Bytes → Bool
unfolding starts_with
holds t [] = is_empty t
holds t (c ∷ s) =
    let rest = holds t s in elim (starts_with t (c ∷ s)) [ some _ ↦ true | none ↦ rest ]

-- `s.substr(0, s.find_last_of('.'))`; with no dot that is the whole text
unfoldable pub before_last_dot : Bytes → Bytes
unfolding find
before_last_dot [] = []
before_last_dot (c ∷ s) =
    let rest = before_last_dot s in
    if c == b'.' then elim (find b'.' s) [ none ↦ [] | some _ ↦ c ∷ rest ] else c ∷ rest

-- The file's name, if the path is one of the folder itself.
name_in : Bytes → Bytes → Option Bytes
unfolding starts_with find
name_in directory path = elim (starts_with (directory ++ b'/' ∷ []) path) [
  | none ↦ none
  | some name ↦ elim (find b'/' name) [ none ↦ some name | some _ ↦ none ]
]

listed_name : Option Bytes → List Bytes → List Bytes
unfolding holds before_last_dot
listed_name none names = names
listed_name (some name) names =
    if holds (codes ".txt") name then before_last_dot name ∷ names else names

unfoldable pub ticket_names : Bytes → Map Bytes → List Bytes
unfolding name_in listed_name
ticket_names directory [] = []
ticket_names directory ((path, content) ∷ files) =
    listed_name (name_in directory path) (ticket_names directory files)

unfoldable pub say_all : List Bytes → Dialog (Unit {0})
unfolding ◌>>◌
say_all [] = pure tt
say_all (line ∷ lines) = say line >> say_all lines

unfoldable pub bulleted : List Bytes → List Bytes
bulleted [] = []
bulleted (name ∷ names) = (codes " - " ++ name) ∷ bulleted names

abbrev pub counted : List Bytes → Bytes
counted names = codes "You have " ++ print_ℕ (length names) ++ codes " ticket(s):"

unfoldable pub get_owned_tickets : Dialog (Unit {0})
unfolding folder is_directory ticket_names say_all bulleted ◌>>=◌ ◌>>◌
get_owned_tickets = do
  username ← look (λ d. d.client.username)
  there ← look (λ d. is_directory (folder username) d.directories)
  names ← look (λ d. ticket_names (folder username) d.files)
  let list = do say (counted names); say_all (bulleted names)
  if there then list else say (codes "Application Data Not Found")
