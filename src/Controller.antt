-- ===== src/Controller.antt =====
-- `class Controller`, common/src/Controller/Controller.cpp: the sessions, and one handler for each
-- message over the services.
pub mod State
pub mod Sessions
pub mod Replies
pub mod Users
pub mod Shop
pub mod Door
pub mod Dispatch
pub mod Nonces
pub mod Settles
pub mod Steps
pub mod Replay
pub mod Requests
pub mod Guarded
pub mod Lifetimes
pub mod Limit
