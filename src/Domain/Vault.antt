-- ===== src/Domain/Vault.antt =====
-- internal/domain/vault
pub mod Access
pub mod Note
pub mod NotePath
pub mod Search
