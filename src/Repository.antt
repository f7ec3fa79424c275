-- ===== src/Repository.antt =====
-- common/src/Repositories: each method runs its statement, or falls back on a default where the
-- connection is not valid or the statement throws. All repositories share one connection.
pub mod Tickets
pub mod Users
pub mod Events
