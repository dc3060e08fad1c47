-- ===== src/Sse.antt =====
-- internal/sse: event ids, the replay ring, the bus and the hub.
pub mod Id
pub mod RoundTrip
pub mod Ring
pub mod Bus
pub mod Hub
