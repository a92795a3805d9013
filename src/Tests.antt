-- ===== src/Tests.antt =====
-- Each theorem at a concrete input.
mod Domain
mod Auth
mod Service
mod VaultFs
mod Released
mod Requests
mod Rpc
mod Program
mod Searching
mod Reading
mod Files
mod Wire
mod Gateway
