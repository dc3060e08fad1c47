-- ===== src/Extract.antt =====
-- internal/extract: codes in the text of a mail.
pub mod Spans
pub mod Search
pub mod Merge
pub mod Cover
pub mod Otp
