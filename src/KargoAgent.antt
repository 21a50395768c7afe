-- ===== src/KargoAgent.antt =====
-- internal/controller/kargoagent: the controller of Kargo agents.
pub mod State
pub mod Size
pub mod Convert
pub mod Normalize
pub mod World
pub mod Lookup
pub mod Observe
pub mod Write
mod Gateway
mod Rollback
mod Removal
mod Settled
mod Refused
mod Sample
mod Tests
mod RoundTrip
mod Equivalent
mod NoDrift
