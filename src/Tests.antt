-- ===== src/Tests.antt =====
-- Runs of the definitions at concrete inputs.
pub mod ConfigTests
pub mod SqlTests
pub mod BootstrapTests
pub mod FileTests
pub mod VaultTests
pub mod DatabaseTests
pub mod PostgresTests
pub mod CertificateTests
pub mod StorageTests
