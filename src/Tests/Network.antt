-- ===== src/Tests/Network.antt =====
-- The firewall, connections, the client and a new database at concrete values.
use ticket_ist.Prelude.{
  ℕ, ◌+◌, not, ◌&&◌, some, ok, length, ◌≤◌, ◌<◌, ◌≡◌, refl, true, false, List, [], ◌∷◌, Bytes,
  codes, arith, str_eq, is_empty,
}
use ticket_ist.Prelude.Int.{ℤ, pos, ◌+ℤ◌}
use ticket_ist.Prelude.Map.{lookup}
use ticket_ist.Platform.{compute_sha256}
use ticket_ist.Database.{run_select}
use ticket_ist.Database.Schema
use ticket_ist.Repository.Users
use ticket_ist.Communication.Start.{
  ServerCalls, TlsServer, new_server, start, reset_db, server_main,
}
use ticket_ist.Communication.Start.Ready.{server_main-is_allowed}
use ticket_ist.Communication.Sockets.{
  ClientCalls, Held, create_context, configure_context, new_client, connect_to_server, destroy,
}
use ticket_ist.Communication.Sockets.Life.{made, succeeds, destroy-connect_to_server}
use ticket_ist.Service.Users.{login_user}
use ticket_ist.Message.Action.{accept_auth, reject_auth}
use ticket_ist.Message.LogIn.{LogInMessage}
use ticket_ist.Controller.State.{Controller, Inputs}
use ticket_ist.Controller.Replies.{create_accept_auth_message, create_reject_auth_message}
use ticket_ist.Controller.Users.{do_log_in_action}
use ticket_ist.Client.{Client}
use ticket_ist.Client.Sync.{IsSynced, IsTaken, create_auth_message-IsTaken}
use ticket_ist.Client.LogIn.{IsWelcomed, do_log_in_action-IsWelcomed}
use ticket_ist.Communication.Firewall.{new_firewall, start_rules, is_allowed, loopback}
use ticket_ist.Communication.Firewall.Rate.{IsSpaced, admitted_at, admitted_at-IsSpaced}
use ticket_ist.Text.Decimal.{IsLong}
use ticket_ist.Tests.Server.{local, memory-IsReliable}
use ticket_ist.Tests.Shop.{tables, inputs, draw}

abbrev arrivals : List (ℕ × Bytes)
arrivals =
    (5, codes "127.0.0.1")
    ∷ (9, codes "127.0.0.1")
    ∷ (20, codes "10.0.0.1")
    ∷ (1000000005, codes "127.0.0.1")
    ∷ []

admitted_at-IsSpaced_example :
    IsSpaced
      (lookup (codes "127.0.0.1") new_firewall.client_last_request)
      (admitted_at (codes "127.0.0.1") arrivals new_firewall)
admitted_at-IsSpaced_example = admitted_at-IsSpaced (codes "127.0.0.1") arrivals new_firewall refl

abbrev client : Client
client = record { username = codes "ana"; cookie = codes "COOKIE_x"; nonce = pos 42 }

abbrev server : Controller local
server = record {
  conn = tables;
  event_cache = [];
  tickets_info_cache = [];
  auth_map = (codes "ana", record { cookie = codes "COOKIE_x"; nonce = pos 42 }) ∷ [];
  validator_map = [];
  ssl_to_username = [];
}

shared : IsSynced client server.auth_map
unfolding lookup str_eq
shared = refl

next_fits : IsLong (pos 42 +ℤ pos 1)
unfolding ◌+ℤ◌
next_fits = omega arith

first_fits : IsLong (inputs.new_nonce +ℤ pos 1)
unfolding ◌+ℤ◌
first_fits = omega arith

some_text : is_empty (codes "Ticket: x") ≡ false
unfolding is_empty
some_text = refl

create_auth_message-IsTaken_example :
    IsTaken client
      (codes "Ticket: x")
      accept_auth
      (create_accept_auth_message local (codes "Ticket: x") (codes "ana") server)
    × IsTaken client
        (codes "Ticket: x")
        reject_auth
        (create_reject_auth_message local (codes "Ticket: x") (codes "ana") server)
create_auth_message-IsTaken_example =
    create_auth_message-IsTaken client (codes "Ticket: x") (omega arith) (omega arith) next_fits
      some_text local server shared

abbrev log_in : LogInMessage
log_in = record { username = codes "ana"; password = codes "pw" }

accepted : (login_user local (codes "ana") (codes "pw") tables).0 ≡ true
unfolding login_user Users.check_password run_select Schema.select_user compute_sha256 str_eq
accepted = refl

draw_fits : (i : ℕ) → draw i < 62
draw_fits i = omega arith

do_log_in_action-IsWelcomed_example :
    IsWelcomed local inputs log_in 4 client (do_log_in_action local inputs log_in 4 server)
do_log_in_action-IsWelcomed_example =
    do_log_in_action-IsWelcomed local inputs log_in 4 client server accepted (omega arith) draw_fits
      first_fits

within : (v : ℤ) → Schema.count_owned v tables ≤ 6
unfolding Schema.count_owned Schema.where_rows
within v = ground arith

abbrev texts : List (Inputs × Bytes)
texts =
    (inputs, codes "5:ana:COOKIE_x:43:7:Gala")
    ∷ (inputs, codes "12:ana:COOKIE_x:44")
    ∷ (inputs, codes "none")
    ∷ []

abbrev server_calls : ServerCalls
server_calls = record {
  new_context = true;
  loads_certificate = true;
  loads_private_key = true;
  keys_match = true;
  socket = true;
  sets_options = true;
  inet_pton = true;
  binds = true;
  listens = true;
}

abbrev started : TlsServer
started = record {
  firewall = start_rules new_firewall;
  server_fd = true;
  is_listening = true;
  sockets = 4;
}

starts :
    server_main local draw server_calls (some tables) 3 ≡ some (reset_db local draw tables, started)
unfolding server_main new_server start
starts = refl

server_main-is_allowed_example :
    (is_allowed (codes "10.0.0.1") started.firewall ≡ str_eq (codes "10.0.0.1") loopback)
    × (started.is_listening ≡ true)
    × (started.sockets ≡ 3 + 1)
    × (length (Schema.select_event_infos (pos 3) (local.tables (reset_db local draw tables))) ≡ 20)
server_main-is_allowed_example =
    server_main-is_allowed local draw memory-IsReliable server_calls tables 3
      (reset_db local draw tables, started) starts (codes "10.0.0.1") 3 (omega arith) (omega arith)

-- The handshake fails.
abbrev client_calls : ClientCalls
client_calls = record {
  new_context = true;
  loads_ca = true;
  socket = true;
  inet_pton = true;
  connects = true;
  new_ssl = true;
  handshakes = false;
}

abbrev held : Held
held = record { sockets = 3; contexts = 0; ssls = 0 }

abbrev certificate : Bytes
certificate = codes "server.crt"

makes : (made client_calls certificate true held).0 ≡ ok tt
unfolding new_client create_context configure_context is_empty
makes = refl

destroy-connect_to_server_example :
    ((made client_calls certificate true held).1.verifies_peer ≡ true && not (is_empty certificate))
    × ((connect_to_server client_calls (made client_calls certificate true held).1).1.ssl
        ≡ succeeds (connect_to_server client_calls (made client_calls certificate true held).1).0)
    × ((connect_to_server client_calls (made client_calls certificate true held).1).1.sock
        ≡ succeeds (connect_to_server client_calls (made client_calls certificate true held).1).0)
    × (destroy (connect_to_server client_calls (made client_calls certificate true held).1).1
        ≡ held)
destroy-connect_to_server_example =
    destroy-connect_to_server client_calls certificate true held makes
