-- ===== src/Smtp.antt =====
-- internal/smtp: mail that arrives is stored and bound in one transaction.
pub mod Ingest
pub mod Invariant
pub mod Writes
pub mod Arrival
