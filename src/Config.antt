-- ===== src/Config.antt =====
-- templates/entrypoints/internal/config: Zabbix configuration from the container environment.
pub mod Parameters
pub mod Rules
pub mod Agent
