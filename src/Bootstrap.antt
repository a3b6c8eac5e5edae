-- ===== src/Bootstrap.antt =====
-- templates/entrypoints/internal/bootstrap: the building blocks that the entrypoints share.
pub mod Os
pub mod Environment
pub mod Indexed
pub mod Retry
pub mod Command
pub mod ProviderSecrets
pub mod SecretRegistry
pub mod SecretFiles
pub mod Database
pub mod Files
pub mod SqlFile
pub mod Managed
pub mod SecretDirs
pub mod SecretCa
pub mod VaultTls
pub mod Secrets
