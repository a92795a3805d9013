-- ===== src/Encoding.antt =====
-- Go's packages `encoding/json` and `encoding/base64`, as far as the program encodes with them.
pub mod Json
pub mod Base64
