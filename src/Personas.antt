-- ===== src/Personas.antt =====
-- internal/personas: the lease service, which acquires identities for runs and hands secrets over.
pub mod Config
pub mod Policy
pub mod Address
pub mod Minting
pub mod Acquire
pub mod Claim
pub mod Invariant
pub mod ClaimInvariant
pub mod Backed
pub mod Answered
pub mod Seeding
pub mod Granted
pub mod Writes
pub mod Reservation
