-- ===== src/Tests.antt =====
-- Runs of the operations on concrete inputs.
mod Fixtures
mod Histories
mod Claims
mod Mail
mod Service
mod Events
mod Projects
mod Codes
