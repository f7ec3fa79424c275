-- ===== src/Communication/Sockets/Life.antt =====
-- What a client holds, from its construction to its end.
use ticket_ist.Prelude.{
  ◌≡◌, Bool, true, false, not, ◌&&◌, Bytes, arith, is_empty, Result, ok, throw,
}
use ticket_ist.Communication.Sockets.{
  ClientCalls, Held, TlsClient, create_context, configure_context, new_client, connect_to_server,
  destroy,
}

abbrev pub succeeds : Result (Unit {0}) → Bool
succeeds (ok u) = true
succeeds (throw e) = false

module _ (calls : ClientCalls) (ca_file : Bytes) (verify : Bool) (held : Held) where
  abbrev pub made : Result (Unit {0}) × TlsClient
  made = new_client calls ca_file verify held

  -- A client that was made verifies the server exactly if it was asked to and has a file of
  -- authorities. However its connecting ends, it has an SSL object and a socket exactly if it
  -- succeeded, and its destructor gives back all that the process did not hold before.
  pub destroy-connect_to_server :
      made.0 ≡ ok tt
      → (made.1.verifies_peer ≡ verify && not (is_empty ca_file))
        × ((connect_to_server calls made.1).1.ssl ≡ succeeds (connect_to_server calls made.1).0)
        × ((connect_to_server calls made.1).1.sock ≡ succeeds (connect_to_server calls made.1).0)
        × (destroy (connect_to_server calls made.1).1 ≡ held)
  unfolding new_client create_context configure_context connect_to_server destroy
  destroy-connect_to_server h = ground (arith, h)
