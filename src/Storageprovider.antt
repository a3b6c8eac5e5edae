-- ===== src/Storageprovider.antt =====
-- templates/entrypoints/internal/storageprovider: the providers of history and telemetry storage.
pub mod Fields
pub mod Options
pub mod Indexed
pub mod Families
pub mod Parameter
pub mod Configuration
pub mod Web
