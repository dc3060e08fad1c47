-- ===== src/History.antt =====
-- The running process: the calls of internal/personas, internal/smtp and internal/store in the
-- order in which their statements reach the one database.
pub mod Calls
pub mod Reach
pub mod Unique
