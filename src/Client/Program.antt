-- ===== src/Client/Program.antt =====
-- The client program from its arguments on, Client.cpp: `createClient` and `main`.
pub mod Files
use ticket_ist.Prelude.{
  ℕ, Bool, true, false, Option, none, some, List, [], ◌∷◌, Bytes, codes, str_eq, Result, ok, throw,
  if◌then◌else◌,
}
use ticket_ist.Platform.{Platform}
use ticket_ist.Communication.Sockets.{ClientCalls, Held, TlsClient, new_client, connect_to_server}
use ticket_ist.Client.Desk.{Machine, Dialog, pure, raise, exit, what, say, ◌>>◌}
use ticket_ist.Client.Menu.{client_main}

abbrev cert_file : Bytes
cert_file = codes "server.crt"

-- The exception is printed, and the program ends with `EXIT_FAILURE`.
abbrev pub connected : Result (Unit {0}) → Dialog (Unit {0})
connected (ok u) d = (pure tt) d
connected (throw e) d = (say (what e) >> exit) d

-- What the constructor throws is not caught.
abbrev pub constructed : ClientCalls → Result (Unit {0}) × TlsClient → Dialog (Unit {0})
constructed calls (ok u, s) d = connected (connect_to_server calls s).0 d
constructed calls (throw e, s) d = raise e d

unfoldable pub create_client : ClientCalls → Held → Dialog (Unit {0})
unfolding new_client connect_to_server ◌>>◌
create_client calls held = constructed calls (new_client calls cert_file true held)

-- Whether the arguments ask for the by-pass; `none` is an argument that is no flag.
unfoldable pub use_bypass : List Bytes → Option Bool
unfolding str_eq
use_bypass [] = some false
use_bypass (flag ∷ args) = if str_eq flag (codes "-bypass") then some true else none

module _ (p : Platform) (machine : Machine p.Price) (rounds : ℕ) where
  abbrev pub run_with : ClientCalls → Held → Option Bool → Dialog Bool
  run_with calls held none d =
      (say (codes "Invalid flag. Use '-bypass' for bypass or no flags for authentication.")
          >> pure true)
        d
  run_with calls held (some bypass) d =
      (create_client calls held >> client_main p machine rounds bypass) d

  -- `main`, with the arguments behind the name of the program, and whether it failed
  unfoldable pub client_program : ClientCalls → Held → List Bytes → Dialog Bool
  unfolding use_bypass create_client client_main ◌>>◌
  client_program calls held args = run_with calls held (use_bypass args)
