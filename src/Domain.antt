-- ===== src/Domain.antt =====
-- The domain package: validated value types and their normal forms.
pub mod Patterns
pub mod Profile
pub mod Tunnel
pub mod S3Location
pub mod S3Drive
pub mod SavedSecret
pub mod Settings
pub mod ExecutionLog
pub mod SensitiveData
