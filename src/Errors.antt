-- ===== src/Errors.antt =====
-- Go's error values: the sentinels that the program compares with `errors.Is`, the wrapping of
-- `fmt.Errorf` with %w, the failure context of internal/app/auth/errors.go, and the errors of the
-- package `connect` with their code and their metadata. A text is the constant part of a message.
mod Sentinel
mod Outcome
pub use Sentinel.*
unfoldable pub use Outcome.*
