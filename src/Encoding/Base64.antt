-- ===== src/Encoding/Base64.antt =====
-- `base64.RawURLEncoding.EncodeToString`: the alphabet of addresses, without padding.
pub mod Laws
use canterbury.Base.{ℕ, ◌+◌, ◌*◌, ◌-◌, ◌/◌, ◌%◌, [], ◌∷◌, Bytes, ltb, ◌==◌, if◌then◌else◌}

unfoldable pub base64_digit : ℕ → ℕ
base64_digit n =
    if ltb n 26
    then n + b'A'
    else if ltb n 52
    then n - 26 + b'a'
    else if ltb n 62
    then n - 52 + b'0'
    else if n == 62
    then b'-'
    else b'_'

unfoldable pub raw_url_encode : Bytes → Bytes
raw_url_encode [] = []
raw_url_encode (a ∷ []) = base64_digit (a / 4) ∷ base64_digit (a % 4 * 16) ∷ []
raw_url_encode (a ∷ b ∷ []) =
    base64_digit (a / 4) ∷ base64_digit (a % 4 * 16 + b / 16) ∷ base64_digit (b % 16 * 4) ∷ []
raw_url_encode (a ∷ b ∷ c ∷ s) =
    base64_digit (a / 4)
    ∷ base64_digit (a % 4 * 16 + b / 16)
    ∷ base64_digit (b % 16 * 4 + c / 64)
    ∷ base64_digit (c % 64)
    ∷ raw_url_encode s
