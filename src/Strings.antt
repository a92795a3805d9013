-- ===== src/Strings.antt =====
-- Go's packages `strings`, `path` and `strconv`, as far as the program calls them, over bytes.
pub mod Trim
pub mod Affix
pub mod Case
pub mod Split
pub mod Utf8
pub mod Clean
pub mod Decimal
