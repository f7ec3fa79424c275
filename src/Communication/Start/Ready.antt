-- ===== src/Communication/Start/Ready.antt =====
-- What a server that runs starts from.
use ticket_ist.Prelude.{ℕ, ◌+◌, ◌≤◌, ◌≡◌, true, some, Bytes, arith, length, str_eq, if◌then◌else◌}
use ticket_ist.Prelude.Int.{pos}
use ticket_ist.Platform.{Platform}
use ticket_ist.Database.Laws.{IsReliable}
use ticket_ist.Database.Schema
use ticket_ist.Communication.Firewall.{
  loopback, is_allowed, new_firewall, start_rules, start_rules-is_allowed,
}
use ticket_ist.Repository.Events.{add_dummy_events}
use ticket_ist.Repository.Tickets.Reset.{reset_tickets-select_event_infos}
use ticket_ist.Communication.Start.{
  ServerCalls, TlsServer, new_server, start, destroy_server, reset_db, Running, server_main,
}

-- A start opens one socket if it succeeds, and leaves none open if it fails.
pub start_sockets :
    (calls : ServerCalls) (s : TlsServer)
    → (start calls s).1.sockets ≡ (if (start calls s).0 then s.sockets + 1 else s.sockets)
unfolding start
start_sockets calls s = ground arith

-- The life of a server leaves as many sockets open as before, if its start succeeds.
pub destroy_server-start :
    (calls : ServerCalls) (s : TlsServer)
    → (start calls s).0 ≡ true
    → destroy_server (start calls s).1 ≡ s.sockets
unfolding start destroy_server
destroy_server-start calls s h = ground (arith, h)

module _ (p : Platform) (draw : ℕ → ℕ) where
  -- The server and the tables of a program that runs.
  server_main-running :
      (calls : ServerCalls) (c : p.Conn) (sockets : ℕ) (r : Running p draw)
      → server_main p draw calls (some c) sockets ≡ some r
      → (r.0 ≡ reset_db p draw c)
        × (r.1.firewall ≡ start_rules new_firewall)
        × (r.1.is_listening ≡ true)
        × (r.1.sockets ≡ sockets + 1)
  unfolding server_main new_server start
  server_main-running calls c sockets r h = ground (arith, h)

  -- On a reliable database, if `main` comes to run the server, then it listens on one socket more than
  -- before, its firewall admits the loopback address and no other, and each of the events 1 to 4 has
  -- twenty tickets listed.
  pub server_main-is_allowed :
      IsReliable p.sql
      → (calls : ServerCalls) (c : p.Conn) (sockets : ℕ) (r : Running p draw)
      → server_main p draw calls (some c) sockets ≡ some r
      → (ip : Bytes) (e : ℕ) → 1 ≤ e
      → e ≤ 4
      → (is_allowed ip r.1.firewall ≡ str_eq ip loopback)
        × (r.1.is_listening ≡ true)
        × (r.1.sockets ≡ sockets + 1)
        × (length (Schema.select_event_infos (pos e) (p.tables r.0)) ≡ 20)
  unfolding reset_db
  server_main-is_allowed R calls c sockets r h ip e low high =
      let (db, rules, listens, one) = server_main-running calls c sockets r h in
      (
        rw (rules) (start_rules-is_allowed ip),
        listens,
        one,
        rw (db) (reset_tickets-select_event_infos p R draw (add_dummy_events p c) e low high),
      )
