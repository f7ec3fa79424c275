-- ===== src/Client/Program/Files.antt =====
-- The whole client program writes over no file.
use ticket_ist.Prelude.{
  ℕ, ◌≡◌, Bool, true, Option, none, some, List, Bytes, codes, Exception, Result, ok, throw,
}
use ticket_ist.Prelude.Map.{lookup}
use ticket_ist.Platform.{Platform}
use ticket_ist.Communication.Sockets.{ClientCalls, Held, TlsClient, connect_to_server}
use ticket_ist.Client.Desk.{Machine, Desk, pure, exit, what, say, ◌>>◌}
use ticket_ist.Client.Desk.Keeps.{Keeps, keeps_rules, Keeps-then, Keeps-say, Keeps-pure}
use ticket_ist.Client.Desk.Files.{IsKept, IsKept-Allows}
use ticket_ist.Client.Menu.Files.{client_main-Keeps}
use ticket_ist.Client.Program.{
  connected, constructed, create_client, use_bypass, run_with, client_program,
}

refused : (e : Exception) → Keeps IsKept (say (what e) >> exit {A = Unit {0}})
refused e = search (keeps_rules, IsKept-Allows)

connected-Keeps : (r : Result (Unit {0})) → Keeps IsKept (connected r)
connected-Keeps (ok u) = record { at = λ d path content h. h }
connected-Keeps (throw e) = record { at = (refused e).at }

constructed-Keeps :
    (calls : ClientCalls) (r : Result (Unit {0}) × TlsClient) → Keeps IsKept (constructed calls r)
constructed-Keeps calls (ok u, s) = record {
  at = (connected-Keeps (connect_to_server calls s).0).at;
}
constructed-Keeps calls (throw e, s) = record { at = λ d path content h. h }

create_client-Keeps : (calls : ClientCalls) (held : Held) → Keeps IsKept (create_client calls held)
unfolding create_client
create_client-Keeps calls held = constructed-Keeps calls _

module _ (p : Platform) (machine : Machine p.Price) (rounds : ℕ) where
  run_with-Keeps :
      (calls : ClientCalls) (held : Held) (flag : Option Bool)
      → Keeps IsKept (run_with p machine rounds calls held flag)
  run_with-Keeps calls held none =
      let line = codes "Invalid flag. Use '-bypass' for bypass or no flags for authentication." in
      record {
        at =
            (Keeps-then IsKept-Allows (say line) (pure true) (Keeps-say IsKept-Allows line)
              (Keeps-pure IsKept-Allows true)).at;
      }
  run_with-Keeps calls held (some bypass) = record {
    at =
        (Keeps-then IsKept-Allows _ _ (create_client-Keeps calls held)
          (client_main-Keeps p machine rounds bypass)).at;
  }

  -- However long the client program runs, with whatever arguments, however its connecting ends,
  -- whatever is typed, and whatever the server replies or the connection throws, a file that was there
  -- is still there with its contents.
  pub client_program-lookup :
      (calls : ClientCalls) (held : Held) (args : List Bytes) (d : Desk) (path content : Bytes)
      → lookup path d.files ≡ some content
      → lookup path (client_program p machine rounds calls held args d).1.files ≡ some content
  unfolding client_program
  client_program-lookup calls held args d path content h =
      (run_with-Keeps calls held (use_bypass args)).at d path content h
