-- ===== src/Communication/Sockets.antt =====
-- `TLSClient`, common/src/Communication/TLSClient.cpp: how a client is made, connected and destroyed.
-- How each call of OpenSSL and of the sockets ends is given; what the process holds is counted.
pub mod Life
use ticket_ist.Prelude.{
  ℕ, ◌+◌, ◌-◌, Bool, true, false, not, ◌&&◌, Bytes, codes, is_empty, Result, ok, throw,
  runtime_error, if◌then◌else◌,
}

-- Whether the calls succeed.
pub record ClientCalls : Type 0 where
  pub new_context : Bool
  pub loads_ca : Bool
  pub socket : Bool
  pub inet_pton : Bool
  pub connects : Bool
  pub new_ssl : Bool
  pub handshakes : Bool

-- What the process holds: open sockets, contexts and SSL objects.
pub record Held : Type 0 where
  pub sockets : ℕ
  pub contexts : ℕ
  pub ssls : ℕ

-- The members of a client, a handle as whether it is one, and what the process holds. `verifies_peer` is
-- the mode of the context.
pub record TlsClient : Type 0 where
  pub ca_file : Bytes
  pub verify : Bool
  pub sock : Bool
  pub ctx : Bool
  pub ssl : Bool
  pub verifies_peer : Bool
  pub held : Held

abbrev pub blank : Bytes → Bool → Held → TlsClient
blank ca_file verify held = record {
  ca_file = ca_file;
  verify = verify;
  sock = false;
  ctx = false;
  ssl = false;
  verifies_peer = false;
  held = held;
}

-- What a call returns or throws, and what it leaves.
abbrev pub Ended : Type 0
Ended = Result (Unit {0}) × TlsClient

abbrev fails : Bytes → TlsClient → Ended
fails text s = (throw (runtime_error text), s)

-- `close(sock_); sock_ = -1;`
abbrev pub close_socket : TlsClient → TlsClient
close_socket s = record s { sock = false; held = record (s.held) { sockets = s.held.sockets - 1 } }

-- `SSL_free(ssl_); ssl_ = nullptr;`
abbrev pub free_ssl : TlsClient → TlsClient
free_ssl s = record s { ssl = false; held = record (s.held) { ssls = s.held.ssls - 1 } }

module _ (calls : ClientCalls) where
  unfoldable pub create_context : TlsClient → Ended
  create_context s =
      if calls.new_context
      then (
        ok tt,
        record s { ctx = true; held = record (s.held) { contexts = s.held.contexts + 1 } },
      )
      else fails (codes "Unable to create SSL context") (record s { ctx = false })

  unfoldable pub configure_context : TlsClient → Ended
  unfolding is_empty
  configure_context s =
      if s.verify && not (is_empty s.ca_file)
      then if calls.loads_ca
        then (ok tt, record s { verifies_peer = true })
        else fails (codes "Failed to load CA file") s
      else (ok tt, record s { verifies_peer = false })

  abbrev configure_after : Ended → Ended
  configure_after (ok u, s) = configure_context s
  configure_after (throw e, s) = (throw e, s)

  -- The constructor, whose start of OpenSSL always succeeds.
  unfoldable pub new_client : Bytes → Bool → Held → Ended
  unfolding create_context configure_context
  new_client ca_file verify held = configure_after (create_context (blank ca_file verify held))

  abbrev opened : TlsClient → TlsClient
  opened s = record s { sock = true; held = record (s.held) { sockets = s.held.sockets + 1 } }

  abbrev secured : TlsClient → TlsClient
  secured s = record s { ssl = true; held = record (s.held) { ssls = s.held.ssls + 1 } }

  -- Each failure closes what was opened before it.
  unfoldable pub connect_to_server : TlsClient → Ended
  connect_to_server s =
      if not calls.socket
      then fails (codes "Failed to create socket") (record s { sock = false })
      else if not calls.inet_pton
      then fails (codes "Invalid hostname/IP") (close_socket (opened s))
      else if not calls.connects
      then fails (codes "Failed to connect to server") (close_socket (opened s))
      else if not calls.new_ssl
      then fails (codes "Failed to create SSL object")
          (record (close_socket (opened s)) { ssl = false })
      else if not calls.handshakes
      then fails (codes "TLS handshake failed") (free_ssl (close_socket (secured (opened s))))
      else (ok tt, secured (opened s))

-- The destructor, of the members that are not null.
unfoldable pub destroy : TlsClient → Held
destroy s = record {
  sockets = if s.sock then s.held.sockets - 1 else s.held.sockets;
  contexts = if s.ctx then s.held.contexts - 1 else s.held.contexts;
  ssls = if s.ssl then s.held.ssls - 1 else s.held.ssls;
}
