-- ===== src/VaultRpc.antt =====
-- internal/interfaces/vaultrpc: the handlers of the vault service. The messages are those of
-- gen/go/canterbury/vault/v1, generated from the files under api.
pub mod Request
pub mod Message
pub mod Handlers
pub mod Laws
pub mod AuthContext
pub mod AuditContext
pub mod Chain
pub mod Reads
pub mod Released
