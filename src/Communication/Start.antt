-- ===== src/Communication/Start.antt =====
-- The start of the server: `TLSServer::TLSServer` and `TLSServer::start`,
-- common/src/Communication/TLSServer.cpp, and `main` in Server.cpp. How the calls of OpenSSL and of the
-- sockets end is given, and so is the connection to the database.
pub mod Ready
use ticket_ist.Prelude.{
  ℕ, ◌+◌, ◌-◌, Bool, true, false, not, ◌&&◌, Option, none, some, if◌then◌else◌,
}
use ticket_ist.Platform.{Platform}
use ticket_ist.Repository.Events.{add_dummy_events}
use ticket_ist.Repository.Tickets.{reset_tickets}
use ticket_ist.Communication.Firewall.{Firewall, new_firewall, start_rules}

pub record ServerCalls : Type 0 where
  pub new_context : Bool
  pub loads_certificate : Bool
  pub loads_private_key : Bool
  pub keys_match : Bool
  pub socket : Bool
  pub sets_options : Bool
  pub inet_pton : Bool
  pub binds : Bool
  pub listens : Bool

-- The members that a start changes, and how many sockets the process has open. `server_fd` is whether
-- the descriptor is one.
pub record TlsServer : Type 0 where
  pub firewall : Firewall
  pub server_fd : Bool
  pub is_listening : Bool
  pub sockets : ℕ

module _ (calls : ServerCalls) where
  -- The last step is reached only if the others succeed.
  abbrev configure_context : Bool
  configure_context = calls.loads_certificate && calls.loads_private_key && calls.keys_match

  -- The constructor; `none` is the end of the program with `EXIT_FAILURE`.
  unfoldable pub new_server : ℕ → Option TlsServer
  new_server sockets =
      if not calls.new_context
      then none
      else if not configure_context
      then none
      else some (record {
        firewall = new_firewall;
        server_fd = false;
        is_listening = false;
        sockets = sockets;
      })

  -- `close(server_fd_)`, which leaves the member as it is
  abbrev close_fd : TlsServer → TlsServer
  close_fd s = record s { sockets = s.sockets - 1 }

  unfoldable pub start : TlsServer → Bool × TlsServer
  unfolding start_rules
  start s =
      let ruled = record s { firewall = start_rules s.firewall } in
      let opened = record ruled { server_fd = true; sockets = s.sockets + 1 } in
      if not calls.socket
      then (false, record ruled { server_fd = false })
      else if not calls.sets_options
      then (false, close_fd opened)
      else if not calls.inet_pton
      then (false, close_fd opened)
      else if not calls.binds
      then (false, close_fd opened)
      else if not calls.listens
      then (false, close_fd opened)
      else (true, record opened { is_listening = true })

-- What the destructor leaves open. After a start that failed the descriptor is closed again.
unfoldable pub destroy_server : TlsServer → ℕ
destroy_server s = if s.server_fd then s.sockets - 1 else s.sockets

module _ (p : Platform) (draw : ℕ → ℕ) where
  unfoldable pub reset_db : p.Conn → p.Conn
  unfolding add_dummy_events reset_tickets
  reset_db c = reset_tickets p draw (add_dummy_events p c)

  -- The sockets of a server that runs, with the connection to the database.
  abbrev pub Running : Type 0
  Running = p.Conn × TlsServer

  abbrev run_if : p.Conn → Bool × TlsServer → Option Running
  run_if c (true, s) = some (c, s)
  run_if c (false, s) = none

  -- `main` up to `run`: the database, its reset, the constructor, and the start; `none` is the end of
  -- the program. `db` is the connection that `databaseConnection` makes, if it throws nothing.
  unfoldable pub server_main : ServerCalls → Option p.Conn → ℕ → Option Running
  unfolding reset_db new_server start
  server_main calls none sockets = none
  server_main calls (some c) sockets = elim (new_server calls sockets) [
    | none ↦ none
    | some s ↦ run_if (reset_db c) (start calls s)
  ]
