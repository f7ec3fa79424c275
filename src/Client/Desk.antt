-- ===== src/Client/Desk.antt =====
-- What the client program works on: its global variables, the files under its working directory,
-- the terminal, and the connection, as the texts that were sent and the replies that will come. A
-- dialog is a function of these that may throw, end the program, or go on for ever.
pub mod Keeps
pub mod Leaves
pub mod Ends
pub mod Files
use ticket_ist.Prelude.{
  ℕ, zero, suc, Bool, true, false, ◌||◌, Option, none, List, [], ◌∷◌, ◌++◌, Bytes, codes, str_eq,
  Exception, Result, ok, throw, invalid_argument, out_of_range, runtime_error, if◌then◌else◌, ◌==◌,
}
use ticket_ist.Prelude.Int.{ℤ}
use ticket_ist.Prelude.Map.{Map, contains, insert}
use ticket_ist.Text.Stream.{Stream}
use ticket_ist.Text.Input.{read_word, read_char, read_int, clear, ignore_line}
use ticket_ist.Crypto.{OpenSsl}
use ticket_ist.Client.{Client}

-- What the program runs on beside the platform: OpenSSL's ciphers, `std::hash`, the rights in the
-- file system, the conversion of `std::cin >> x` for a `double` (`none` where nothing is
-- converted, which sets it to 0), and the values of variables that are not initialised.
pub record Machine (Price : Type 0) : Type 0 where
  pub openssl : OpenSsl
  pub std_hash : Bytes → ℕ
  pub may_create : Bytes → Bool
  pub may_write : Bytes → Bool
  pub read_price : Bytes → Option Price × Bytes
  pub any_char : ℕ
  pub any_int : ℤ
  pub any_price : Price

pub record Desk : Type 0 where
  pub client : Client
  pub hashed_password : Bytes
  pub files : Map Bytes
  pub directories : List Bytes
  pub input : Stream
  pub output : List Bytes
  pub sent : List Bytes
  pub replies : List (Result Bytes)
  -- what the next calls of `RAND_bytes` give for a size, `none` where they fail
  pub draws : List (ℕ → Option Bytes)

-- `running` is a loop that has used up its rounds, or a wait for a reply that does not come.
pub data Outcome (A : Type 0) : Type 0 where
  done : A → Outcome A
  failed : Exception → Outcome A
  exited : Outcome A
  running : Outcome A

abbrev pub Dialog : Type 0 → Type 0
Dialog A = Desk → Outcome A × Desk

module _ {A : Type 0} where
  abbrev pub pure : A → Dialog A
  pure a d = (done a, d)

  abbrev pub raise : Exception → Dialog A
  raise e d = (failed e, d)

  abbrev pub lift : Result A → Dialog A
  lift (ok a) d = (done a, d)
  lift (throw e) d = (failed e, d)

  -- `exit(EXIT_SUCCESS)`
  abbrev pub exit : Dialog A
  exit d = (exited, d)

  -- what is read off the globals, the files and the terminal
  abbrev pub look : (Desk → A) → Dialog A
  look f d = (done (f d), d)

-- `e.what()`
abbrev pub what : Exception → Bytes
what (invalid_argument text) = text
what (out_of_range text) = text
what (runtime_error text) = text

-- The rest of a chain, at the outcome of what stands before it.
unfoldable pub continue : {A B : Type 0} → (A → Dialog B) → Outcome A × Desk → Outcome B × Desk
continue f (done a, d) = f a d
continue f (failed e, d) = (failed e, d)
continue f (exited, d) = (exited, d)
continue f (running, d) = (running, d)

module _ {A B : Type 0} where
  infixl 5 ◌>>=◌ ◌>>◌
  unfoldable pub ◌>>=◌ : Dialog A → (A → Dialog B) → Dialog B
  unfolding continue
  ◌>>=◌ m f d = continue f (m d)

  unfoldable pub ◌>>◌ : Dialog A → Dialog B → Dialog B
  unfolding continue
  ◌>>◌ m k d = continue (λ _. k) (m d)

-- `catch (const std::exception& e)`
unfoldable pub handle : {A : Type 0} → (Exception → Dialog A) → Outcome A × Desk → Outcome A × Desk
handle f (failed e, d) = f e d
handle f (done a, d) = (done a, d)
handle f (exited, d) = (exited, d)
handle f (running, d) = (running, d)

unfoldable pub catch : {A : Type 0} → Dialog A → (Exception → Dialog A) → Dialog A
unfolding handle
catch m f d = handle f (m d)

-- One round of a loop goes on with new values, or leaves the loop.
pub data Round (S A : Type 0) : Type 0 where
  again : S → Round S A
  leave : A → Round S A

abbrev pub next_round : {S A : Type 0} → (S → Dialog A) → Round S A → Dialog A
next_round next (again s) d = next s d
next_round next (leave a) d = (done a, d)

-- The loop, cut off after this many rounds.
unfoldable pub loop : {S A : Type 0} → ℕ → (S → Dialog (Round S A)) → S → Dialog A
unfolding continue
loop zero body s d = (running, d)
loop (suc rounds) body s d = continue (next_round (loop rounds body)) (body s d)

-- `std::cout << line << std::endl`
abbrev pub say : Bytes → Dialog (Unit {0})
say line d = (done tt, record d { output = d.output ++ line ∷ [] })

abbrev pub ask_word : Bytes → Dialog Bytes
ask_word old d =
    let (word, input) = read_word old d.input in (done word, record d { input = input })

abbrev pub ask_char : ℕ → Dialog ℕ
ask_char old d = let (c, input) = read_char old d.input in (done c, record d { input = input })

abbrev pub ask_int : ℤ → Dialog ℤ
ask_int old d = let (n, input) = read_int old d.input in (done n, record d { input = input })

-- `std::cin.clear()`
abbrev pub clear_flags : Dialog (Unit {0})
clear_flags d = (done tt, record d { input = clear d.input })

-- `std::cin.clear(); std::cin.ignore(…)`
abbrev pub discard_line : Dialog (Unit {0})
discard_line d = (done tt, record d { input = ignore_line (clear d.input) })

-- `sendData(text)` and `receiveData()`
abbrev pub take_reply : List (Result Bytes) → Dialog Bytes
take_reply [] d = (running, d)
take_reply (ok reply ∷ rest) d = (done reply, record d { replies = rest })
take_reply (throw e ∷ rest) d = (failed e, record d { replies = rest })

abbrev pub exchange : Bytes → Dialog Bytes
exchange text d = take_reply d.replies (record d { sent = d.sent ++ text ∷ [] })

abbrev pub take_draw : ℕ → List (ℕ → Option Bytes) → Dialog (Option Bytes)
take_draw size [] d = (done none, d)
take_draw size (draw ∷ rest) d = (done (draw size), record d { draws = rest })

-- `RAND_bytes(buffer, size)`
abbrev pub rand_bytes : ℕ → Dialog (Option Bytes)
rand_bytes size d = take_draw size d.draws d

-- The name of a directory has no slash at its end.
unfoldable pub folder : Bytes → Bytes
folder username = codes "clients/" ++ username

unfoldable pub is_directory : Bytes → List Bytes → Bool
unfolding str_eq
is_directory path [] = false
is_directory path (d ∷ directories) =
    let rest = is_directory path directories in str_eq path d || rest

-- `std::filesystem::exists` of a file, which a directory may stand in for
unfoldable pub file_exists : Bytes → Desk → Bool
unfolding contains is_directory
file_exists path d = contains path d.files || is_directory path d.directories

-- The directories that lead to a path, and itself.
ancestors : Bytes → Bytes → List Bytes
ancestors before [] = before ∷ []
ancestors before (c ∷ s) =
    let rest = ancestors (before ++ c ∷ []) s in if c == b'/' then before ∷ rest else rest

module _ {Price : Type 0} (machine : Machine Price) where
  -- `std::filesystem::create_directories`, with whether one was created
  unfoldable pub create_directories : Bytes → Dialog Bool
  unfolding is_directory ancestors
  create_directories path d =
      if is_directory path d.directories
      then (done false, d)
      else if machine.may_create path
      then (done true, record d { directories = ancestors [] path ++ d.directories })
      else (failed (runtime_error (codes "filesystem error: cannot create directories")), d)

  -- `std::ofstream file(path); file << text;`, with whether the file could be opened
  unfoldable pub write_file : Bytes → Bytes → Dialog Bool
  unfolding insert
  write_file path text d =
      if machine.may_write path
      then (done true, record d { files = insert path text d.files })
      else (done false, d)
