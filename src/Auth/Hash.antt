-- ===== src/Auth/Hash.antt =====
-- The hashes that the program records in place of what it hashes. SHA-256 is a parameter, a
-- function from bytes to bytes; the hexadecimal text of `encoding/hex` is written out.
use canterbury.Base.{ℕ, ◌+◌, ◌-◌, ◌/◌, ◌%◌, [], ◌∷◌, ◌++◌, Bytes, codes, ltb, if◌then◌else◌}

abbrev hex_digit : ℕ → ℕ
hex_digit n = if ltb n 10 then b'0' + n else b'a' + (n - 10)

-- `hex.EncodeToString`
unfoldable pub hex : Bytes → Bytes
hex [] = []
hex (b ∷ s) = hex_digit (b / 16) ∷ hex_digit (b % 16) ∷ hex s

module _ (sha256 : Bytes → Bytes) where
  -- internal/app/auth/authenticate.go
  unfoldable pub hash_subject : Bytes → Bytes → Bytes
  hash_subject issuer subject = codes "sha256:" ++ hex (sha256 (issuer ++ 0 ∷ subject))
