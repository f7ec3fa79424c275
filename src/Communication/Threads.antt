-- ===== src/Communication/Threads.antt =====
-- `TLSServer::run` and its threads, common/src/Communication/TLSServer.cpp: the main thread checks who
-- comes in, and each connection has a thread that runs `handleClient`; the threads share the controller.
pub mod Admitted
use ticket_ist.Prelude.{ℕ, ◌≡◌, Bool, true, false, ◌||◌, List, [], ◌∷◌, Bytes, ◌==◌, if◌then◌else◌}
use ticket_ist.Platform.{Platform}
use ticket_ist.Communication.Firewall.{Firewall, admit_connection}
use ticket_ist.Controller.State.{Controller}

-- A connection by its SSL object, and the address of the client.
abbrev pub Connection : Type 0
Connection = ℕ × Bytes

-- The firewall and the controller, and the connections whose threads run.
pub record Server (p : Platform) : Type 0 where
  pub firewall : Firewall
  pub controller : Controller p
  pub connections : List Connection

unfoldable pub is_open : ℕ → List Connection → Bool
is_open ssl [] = false
is_open ssl ((c, ip) ∷ connections) = let rest = is_open ssl connections in ssl == c || rest

unfoldable pub close : ℕ → List Connection → List Connection
close ssl [] = []
close ssl ((c, ip) ∷ connections) =
    let rest = close ssl connections in if ssl == c then rest else (c, ip) ∷ rest

-- The server goes from `s` to `t`. The SSL object of a new connection is in use by no other. A client
-- that comes in may be turned away in any case, since its handshake may fail. The threads take turns at
-- any point of their work, and no lock guards the controller: a thread that runs may leave it in any
-- state whatever. It ends when its connection does, or with an exception.
pub data Step {p : Platform} (s t : Server p) : Type 0 where
  connects :
      (ssl now : ℕ) (ip : Bytes)
      → (admit_connection now ip s.firewall).0 ≡ true
      → is_open ssl s.connections ≡ false
      → t ≡ record s {
        firewall = (admit_connection now ip s.firewall).1;
        connections = (ssl, ip) ∷ s.connections;
      }
      → Step s t
  turned_away :
      (now : ℕ) (ip : Bytes)
      → t ≡ record s { firewall = (admit_connection now ip s.firewall).1 }
      → Step s t
  works :
      (ssl : ℕ) (c : Controller p)
      → is_open ssl s.connections ≡ true
      → t ≡ record s { controller = c }
      → Step s t
  ends :
      (ssl : ℕ)
      → is_open ssl s.connections ≡ true
      → t ≡ record s { connections = close ssl s.connections }
      → Step s t

-- Any number of steps, of the threads in any order.
pub data Reach {p : Platform} (s : Server p) : Server p → Type 0 where
  here : Reach s s
  next : {t u : Server p} → Reach s t → Step t u → Reach s u
