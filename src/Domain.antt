-- ===== src/Domain.antt =====
-- internal/domain: the values of the program and the rules that they obey.
pub mod Vault
pub mod Audit
