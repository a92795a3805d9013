-- ===== src/Encoding/Base64/Laws.antt =====
-- What is encoded can be decoded, and holds letters, digits and two signs only.
use canterbury.Base.{
  ℕ, ◌+◌, ◌*◌, ◌-◌, ◌/◌, ◌%◌, ◌<◌, ◌≢◌, ◌≡◌, refl, ap, arith, [], ◌∷◌, Bytes, ltb, ◌==◌,
  if◌then◌else◌, All,
}
use canterbury.Encoding.Base64.{base64_digit, raw_url_encode}

-- The value of a digit, as a decoder reads it.
abbrev pub digit_value : ℕ → ℕ
digit_value c =
    if c == b'-'
    then 62
    else if c == b'_'
    then 63
    else if ltb c b'A'
    then c - b'0' + 52
    else if ltb c b'a'
    then c - b'A'
    else c - b'a' + 26

digit_value-base64_digit : (n : ℕ) → n < 64 → digit_value (base64_digit n) ≡ n
unfolding base64_digit
digit_value-base64_digit n h = ground arith

abbrev pub IsByte : ℕ → Type 0
IsByte c = c < 256

first_byte : (a b : ℕ) → b < 256 → a / 4 * 4 + (a % 4 * 16 + b / 16) / 16 ≡ a
first_byte a b h = omega arith

second_byte :
    (a b c : ℕ)
    → b < 256
    → c < 256
    → (a % 4 * 16 + b / 16) % 16 * 16 + (b % 16 * 4 + c / 64) / 4 ≡ b
second_byte a b c h k = omega arith

third_byte : (b c : ℕ) → c < 256 → (b % 16 * 4 + c / 64) % 4 * 64 + c % 64 ≡ c
third_byte b c h = omega arith

abbrev first_of : ℕ → ℕ → ℕ
first_of p q = digit_value p * 4 + digit_value q / 16

abbrev second_of : ℕ → ℕ → ℕ
second_of q r = digit_value q % 16 * 16 + digit_value r / 4

abbrev third_of : ℕ → ℕ → ℕ
third_of r t = digit_value r % 4 * 64 + digit_value t

-- A decoder, for texts that an encoder made.
unfoldable pub decode : Bytes → Bytes
decode (p ∷ q ∷ []) = first_of p q ∷ []
decode (p ∷ q ∷ r ∷ []) = first_of p q ∷ second_of q r ∷ []
decode (p ∷ q ∷ r ∷ t ∷ s) = first_of p q ∷ second_of q r ∷ third_of r t ∷ decode s
decode s = []

first_digit : (a : ℕ) → a < 256 → digit_value (base64_digit (a / 4)) ≡ a / 4
first_digit a h = digit_value-base64_digit (a / 4) (omega arith)

second_digit :
    (a b : ℕ) → b < 256 → digit_value (base64_digit (a % 4 * 16 + b / 16)) ≡ a % 4 * 16 + b / 16
second_digit a b h = digit_value-base64_digit (a % 4 * 16 + b / 16) (omega arith)

third_digit :
    (b c : ℕ) → c < 256 → digit_value (base64_digit (b % 16 * 4 + c / 64)) ≡ b % 16 * 4 + c / 64
third_digit b c h = digit_value-base64_digit (b % 16 * 4 + c / 64) (omega arith)

last_digit : (c : ℕ) → digit_value (base64_digit (c % 64)) ≡ c % 64
last_digit c = digit_value-base64_digit (c % 64) (omega arith)

-- Decoding the encoding of bytes gives these bytes.
pub decode-raw_url_encode : (s : Bytes) → All IsByte s → decode (raw_url_encode s) ≡ s
unfolding decode raw_url_encode
decode-raw_url_encode [] h = refl
decode-raw_url_encode (a ∷ []) (h, _) =
    let last = digit_value-base64_digit (a % 4 * 16) (omega arith) in
    rw (first_digit a h, last) (ap (λ x. x ∷ []) (omega arith))
decode-raw_url_encode (a ∷ b ∷ []) (h, (k, _)) =
    let last = digit_value-base64_digit (b % 16 * 4) (omega arith) in
    rw (first_digit a h, second_digit a b k, last, first_byte a b k)
      (ap (λ x. a ∷ x ∷ []) (omega arith))
decode-raw_url_encode (a ∷ b ∷ c ∷ s) (h, (k, (l, more))) = rw (
  first_digit a h,
  second_digit a b k,
  third_digit b c l,
  last_digit c,
  first_byte a b k,
  second_byte a b c k l,
  third_byte b c l,
  decode-raw_url_encode s more,
)

digit-plain : (n : ℕ) → base64_digit n ≢ b'.'
unfolding base64_digit
digit-plain n h = ground arith

-- No dot is in an encoding.
pub raw_url_encode-plain : (s : Bytes) → All (λ c. c ≢ b'.') (raw_url_encode s)
unfolding raw_url_encode
raw_url_encode-plain [] = tt
raw_url_encode-plain (a ∷ []) = (digit-plain _, (digit-plain _, tt))
raw_url_encode-plain (a ∷ b ∷ []) = (digit-plain _, (digit-plain _, (digit-plain _, tt)))
raw_url_encode-plain (a ∷ b ∷ c ∷ s) =
    (digit-plain _, (digit-plain _, (digit-plain _, (digit-plain _, raw_url_encode-plain s))))
