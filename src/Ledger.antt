-- ===== src/Ledger.antt =====
-- internal/ledger: the typed events of the audit trail.
pub mod Events
pub mod Redaction
