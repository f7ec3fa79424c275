-- ===== src/Communication.antt =====
-- common/src/Communication: the firewall, the connections of the server and how it starts, and the
-- client's end of a connection.
pub mod Firewall
pub mod Connection
pub mod Threads
pub mod Receive
pub mod Sockets
pub mod Start
