-- ===== src/Auth.antt =====
-- internal/app/auth: from a bearer token to a principal with scopes.
pub mod Hash
pub mod ScopeMapper
pub mod Authenticator
