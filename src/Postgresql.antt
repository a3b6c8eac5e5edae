-- ===== src/Postgresql.antt =====
-- templates/entrypoints/internal/postgresql: the PostgreSQL side of the initialization.
pub mod Endpoints
pub mod Database
pub mod Connection
pub mod Schema
