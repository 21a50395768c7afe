-- ===== src/Gateway.antt =====
-- internal/clients/akuity/client.go: the client of the gateways of the Akuity platform. Its methods
-- run on a world, which holds the gateways' state, the cache of workspace IDs and the counter of
-- write calls. The authorization header, which goes with every call, is left out.
pub mod State
pub mod Gets
mod Reads
mod Transparent
mod Instances
mod Precedence
mod Streams
mod Absent
mod Calls
mod Waits
mod Named
mod Defaults
pub mod Platform
mod Tests
pub mod Workspaces
pub mod Manifests
pub mod Argo
pub mod Kargo
