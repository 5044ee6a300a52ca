-- ===== src/Application.antt =====
-- The application package: the use cases over the store and the ports.
pub mod Env
pub mod Logging
pub mod Profiles
pub mod Sessions
pub mod Ssm
pub mod Tunnels
pub mod S3
pub mod Drives
pub mod Lifecycle
pub mod Operations
pub mod Refresh
pub mod Authenticated
pub mod Secrets
