-- ===== src/VaultFs.antt =====
-- The repository over a directory: internal/adapters/vaultfs.
pub mod Filters
pub mod Pagination
pub mod Sort
pub mod Frontmatter
pub mod Paths
pub mod Snippet
pub mod Read
pub mod Search
pub mod Released
