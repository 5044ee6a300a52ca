-- ===== src/Tests.antt =====
-- Concrete inputs: each general theorem at one of them, and runs of the definitions.
pub mod Samples
pub mod Domain
pub mod Store
pub mod Rows
pub mod Drives
pub mod Locations
pub mod Application
pub mod Tunnels
pub mod Sessions
pub mod Transfers
pub mod Secrets
