-- ===== src/Store.antt =====
-- internal/store: runs, identities, leases, bindings and claims over SQLite.
pub mod Models
pub mod Monad
pub mod Address
pub mod Trail
pub mod Identities
pub mod Leases
pub mod Projects
pub mod Runs
pub mod Bindings
pub mod Claims
pub mod Messages
pub mod Intervals
pub mod Sound
pub mod Keeps
pub mod Triple
pub mod Candidates
pub mod Endings
pub mod Windows
pub mod Suspicions
pub mod Evidence
pub mod Attribution
pub mod Settling
pub mod Oldest
pub mod Tally
pub mod Exclusive
pub mod Writes
pub mod Listing
