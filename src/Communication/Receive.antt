-- ===== src/Communication/Receive.antt =====
-- `TLSClient::sendData` and `TLSClient::receiveData`, common/src/Communication/TLSClient.cpp. How the
-- calls of OpenSSL end is given: one write, and the reads one after the other.
pub mod Whole
use ticket_ist.Prelude.{
  ℕ, Bool, true, false, Option, none, some, List, [], ◌∷◌, ◌++◌, Bytes, codes, length, ltb, Result,
  ok, throw, runtime_error, if◌then◌else◌, not,
}
use ticket_ist.Prelude.Int.{ℤ, pos, leb_ℤ}

-- What `SSL_read` gives: an error, the end of the connection, or bytes, as many as fit at most.
pub data Read : Type 0 where
  failed closed : Read
  bytes : Bytes → Read

abbrev pub buffer_size : ℕ
buffer_size = 1024

abbrev not_initialized : Result (Unit {0})
not_initialized = throw (runtime_error (codes "SSL not initialized"))

-- `ret` is what `SSL_write` returns.
unfoldable pub send_data : Bool → ℤ → Result (Unit {0})
send_data false ret = not_initialized
send_data true ret =
    if leb_ℤ ret (pos 0)
    then throw (runtime_error (codes "Failed to write data over TLS"))
    else ok tt

-- The loop: what was read with the reads that are left, and `none` where it waits for one more.
unfoldable pub receive_from : Bytes → List Read → Option (Result Bytes × List Read)
receive_from result [] = none
receive_from result (failed ∷ reads) =
    some (throw (runtime_error (codes "Failed to read data over TLS")), reads)
receive_from result (closed ∷ reads) = some (ok result, reads)
receive_from result (bytes chunk ∷ reads) =
    let rest = receive_from (result ++ chunk) reads in
    if ltb (length chunk) buffer_size then some (ok (result ++ chunk), reads) else rest

unfoldable pub receive_data : Bool → List Read → Option (Result Bytes × List Read)
unfolding receive_from
receive_data false reads = some (throw (runtime_error (codes "SSL not initialized")), reads)
receive_data true reads = receive_from [] reads
