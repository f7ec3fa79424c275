-- ===== src/Message.antt =====
-- The messages of the protocol, one module for each class of common/src/Message, over the formats
-- and the action numbers that they share.
pub mod Action
pub mod Wire
pub mod Accept
pub mod Reject
pub mod SignUp
pub mod LogIn
pub mod LogInValidator
pub mod Authenticated
pub mod LogOut
pub mod GetAvailableTickets
pub mod BuyTicket
pub mod ValidateTicket
pub mod CheckIntegrity
pub mod SellTicket
pub mod AcceptAuth
pub mod RejectAuth
