-- ===== src/Mysql.antt =====
-- templates/entrypoints/internal/mysql: the MySQL side of the initialization.
pub mod SqlScript
pub mod Tls
pub mod Database
pub mod Connection
pub mod Schema
