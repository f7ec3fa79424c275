-- ===== src/Service.antt =====
-- common/src/Services: the rules of the shop over the repositories.
pub mod Tickets
pub mod Users
pub mod Events
