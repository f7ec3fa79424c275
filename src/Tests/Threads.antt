-- ===== src/Tests/Threads.antt =====
-- The connections at concrete values: their threads, the firewall before them, and the replies.
use ticket_ist.Prelude.{
  ℕ, ◌≤◌, ◌≡◌, refl, true, some, none, List, [], ◌∷◌, ◌++◌, Bytes, codes, arith, ok, str_eq, All,
}
use ticket_ist.Prelude.Int.{ℤ, pos}
use ticket_ist.Prelude.Map.{lookup, insert, contains}
use ticket_ist.Database.Schema
use ticket_ist.Controller.State.{Controller, Inputs}
use ticket_ist.Communication.Connection.{handle_client}
use ticket_ist.Communication.Connection.Limits.{handle_client-IsWithinLimit}
use ticket_ist.Communication.Firewall.{
  Firewall, new_firewall, start_rules, is_allowed, add_allowed_ip, add_blocked_ip, admit_connection,
  is_rate_limited, loopback,
}
use ticket_ist.Communication.Firewall.Waits.{check_all, admit_connection-check_all}
use ticket_ist.Communication.Threads.{
  Server, is_open, connects, turned_away, works, Reach, here, next,
}
use ticket_ist.Communication.Threads.Admitted.{IsLocal, Reach-IsLocal}
use ticket_ist.Communication.Receive.{bytes, receive_data}
use ticket_ist.Communication.Receive.Whole.{full_reads, joined, receive_data-full_reads}
use ticket_ist.Tests.Server.{local, memory-IsReliable, fill, length-fill}
use ticket_ist.Tests.Shop.{tables, inputs}

abbrev server : Controller local
server = record {
  conn = tables;
  event_cache = [];
  tickets_info_cache = [];
  auth_map = (codes "ana", record { cookie = codes "COOKIE_x"; nonce = pos 42 }) ∷ [];
  validator_map = [];
  ssl_to_username = [];
}

within : (v : ℤ) → Schema.count_owned v tables ≤ 6
unfolding Schema.count_owned Schema.where_rows
within v = ground arith

abbrev texts : List (Inputs × Bytes)
texts = (inputs, codes "5:ana:COOKIE_x:43:7:Gala") ∷ (inputs, codes "none") ∷ []

handle_client-IsWithinLimit_example :
    Schema.count_owned (pos 2) (handle_client local 4 texts server).1.conn ≤ 6
handle_client-IsWithinLimit_example =
    handle_client-IsWithinLimit local memory-IsReliable 4 texts server within (pos 2)

abbrev started : Firewall
started = start_rules new_firewall

abbrev shut : Server local
shut = record { firewall = started; controller = server; connections = [] }

abbrev one_open : Server local
one_open = record {
  firewall = (admit_connection 5 loopback started).1;
  controller = server;
  connections = (4, loopback) ∷ [];
}

-- A client comes in, another one is turned away, and the thread of the first ends its session.
abbrev after_work : Server local
after_work = record {
  firewall = (admit_connection 6 (codes "10.0.0.1") one_open.firewall).1;
  controller = record server { auth_map = [] };
  connections = (4, loopback) ∷ [];
}

comes_in : (admit_connection 5 loopback started).0 ≡ true
unfolding admit_connection start_rules add_allowed_ip add_blocked_ip is_allowed contains lookup
    insert str_eq is_rate_limited
comes_in = refl

served : Reach shut after_work
unfolding is_open
served =
    next
      (next (next here (connects 4 5 loopback comes_in refl refl))
        (turned_away 6 (codes "10.0.0.1") refl))
      (works 4 (record server { auth_map = [] }) refl refl)

Reach-IsLocal_example : All IsLocal after_work.connections
Reach-IsLocal_example = Reach-IsLocal served refl refl

loopback_allowed : is_allowed loopback started ≡ true
unfolding start_rules add_allowed_ip add_blocked_ip is_allowed contains lookup insert str_eq
loopback_allowed = refl

abbrev arrivals : List (ℕ × Bytes)
arrivals = (5, loopback) ∷ (9, loopback) ∷ (20, codes "10.0.0.1") ∷ []

nothing_past : lookup loopback started.client_last_request ≡ none
unfolding start_rules add_allowed_ip add_blocked_ip lookup
nothing_past = refl

admit_connection-check_all_example :
    (admit_connection 1000000020 loopback (check_all arrivals started)).0 ≡ true
unfolding start_rules add_allowed_ip add_blocked_ip lookup
admit_connection-check_all_example =
    admit_connection-check_all loopback 1000000020 20 arrivals started refl loopback_allowed tt
      (omega arith) (omega arith)

abbrev chunks : List Bytes
chunks = fill 1024 (codes "8:ana") ∷ []

receive_data-full_reads_example :
    (receive_data true (full_reads chunks (bytes (codes "end") ∷ []))
      ≡ some (ok (joined chunks ++ codes "end"), []))
    × (receive_data true (full_reads chunks []) ≡ none)
receive_data-full_reads_example =
    receive_data-full_reads chunks (codes "end") [] (length-fill 1024 (codes "8:ana"), tt)
      (omega arith)
