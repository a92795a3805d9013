-- ===== src/Service.antt =====
-- internal/app/vault: the use cases of the vault, between a repository and an audit log.
pub mod Exec
pub mod Events
pub mod Sanitize
pub mod Read
pub mod Search
