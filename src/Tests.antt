-- ===== src/Tests.antt =====
-- Concrete inputs: a server that holds the tables in memory, a shop with an event, and the theorems
-- at them.
pub mod Server
pub mod Shop
pub mod Machine
mod Tickets
mod Resale
mod Race
mod Accounts
mod Messages
mod Requests
mod Network
mod Wallet
mod Dialogs
mod Cipher
mod Threads
