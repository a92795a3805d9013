-- ===== src/AuditLog/Ulid.antt =====
-- internal/app/idgen/ulid.go. A mask or a shift of a number is its remainder or its quotient by a
-- power of two, and the `|` of two numbers without a common bit their sum.
use canterbury.Base.{
  ℕ, ◌+◌, ◌*◌, ◌/◌, ◌%◌, ◌^◌, ◌-◌, [], ◌∷◌, ◌++◌, Bytes, ltb, leb, if◌then◌else◌, ◌≡◌, ◌≤◌, ◌<◌,
  arith,
}
use canterbury.Base.Int.{ℤ, pos, negsuc}
use canterbury.Errors.{Result, ok, err, sentinel, wrapping, invalid_timestamp, ◌>>=◌}
use canterbury.Time.{Time, unix_milli}

-- Ten random bytes.
pub record Entropy : Type 0 where
  pub e0 : ℕ
  pub e1 : ℕ
  pub e2 : ℕ
  pub e3 : ℕ
  pub e4 : ℕ
  pub e5 : ℕ
  pub e6 : ℕ
  pub e7 : ℕ
  pub e8 : ℕ
  pub e9 : ℕ

abbrev pub max_ulid_timestamp_millis : ℕ
max_ulid_timestamp_millis = 2 ^ 48 - 1

-- `ulidEncoding[n]`: the digits, and the letters without I, L, O and U.
unfoldable pub encode_digit : ℕ → ℕ
encode_digit n =
    if ltb n 10
    then n + 48
    else if ltb n 18
    then n + 55
    else if ltb n 20
    then n + 56
    else if ltb n 22
    then n + 57
    else if ltb n 27
    then n + 58
    else n + 59

unfoldable pub encode_time : ℕ → Bytes
encode_time ms =
    encode_digit (ms / 2 ^ 45 % 32)
    ∷ encode_digit (ms / 2 ^ 40 % 32)
    ∷ encode_digit (ms / 2 ^ 35 % 32)
    ∷ encode_digit (ms / 2 ^ 30 % 32)
    ∷ encode_digit (ms / 2 ^ 25 % 32)
    ∷ encode_digit (ms / 2 ^ 20 % 32)
    ∷ encode_digit (ms / 2 ^ 15 % 32)
    ∷ encode_digit (ms / 2 ^ 10 % 32)
    ∷ encode_digit (ms / 2 ^ 5 % 32)
    ∷ encode_digit (ms % 32)
    ∷ []

-- Five bytes as eight digits.
unfoldable pub encode_five : ℕ → ℕ → ℕ → ℕ → ℕ → Bytes
encode_five a b c d e =
    encode_digit (a / 8)
    ∷ encode_digit (a % 8 * 4 + b / 64)
    ∷ encode_digit (b / 2 % 32)
    ∷ encode_digit (b % 2 * 16 + c / 16)
    ∷ encode_digit (c % 16 * 2 + d / 128)
    ∷ encode_digit (d / 4 % 32)
    ∷ encode_digit (d % 4 * 8 + e / 32)
    ∷ encode_digit (e % 32)
    ∷ []

unfoldable pub encode_ulid : ℕ → Entropy → Bytes
encode_ulid ms e =
    encode_time ms ++ (encode_five e.e0 e.e1 e.e2 e.e3 e.e4 ++ encode_five e.e5 e.e6 e.e7 e.e8 e.e9)

unfoldable pub in_range : ℤ → Result Entropy → Result Bytes
in_range (negsuc n) random = err (sentinel invalid_timestamp)
in_range (pos ms) random =
    if ltb max_ulid_timestamp_millis ms
    then err (sentinel invalid_timestamp)
    else wrapping "read random ULID entropy" random >>= λ entropy. ok (encode_ulid ms entropy)

-- The second argument is what `rand.Read` gives.
unfoldable pub new_ulid : Result Entropy → Time → Result Bytes
unfolding in_range
new_ulid random timestamp = in_range (unix_milli timestamp) random

-- Reads a digit back.
abbrev pub decode_digit : ℕ → ℕ
decode_digit c =
    if leb c 57
    then c - 48
    else if leb c 72
    then c - 55
    else if leb c 75
    then c - 56
    else if leb c 78
    then c - 57
    else if leb c 84
    then c - 58
    else c - 59

decode_digit-encode_digit : (n : ℕ) → n < 32 → decode_digit (encode_digit n) ≡ n
unfolding encode_digit
decode_digit-encode_digit n h = ground arith

-- The number that the digits of a text stand for, after those before it.
abbrev pub decode : ℕ → Bytes → ℕ
decode acc [] = acc
decode acc (c ∷ s) = decode (acc * 32 + decode_digit c) s

-- The first ten digits of an identifier give back its time in milliseconds.
pub decode-encode_time : (ms : ℕ) → ms ≤ max_ulid_timestamp_millis → decode 0 (encode_time ms) ≡ ms
unfolding encode_time
decode-encode_time ms h =
    let d45 = decode_digit-encode_digit (ms / 2 ^ 45 % 32) (omega arith) in
    let d40 = decode_digit-encode_digit (ms / 2 ^ 40 % 32) (omega arith) in
    let d35 = decode_digit-encode_digit (ms / 2 ^ 35 % 32) (omega arith) in
    let d30 = decode_digit-encode_digit (ms / 2 ^ 30 % 32) (omega arith) in
    let d25 = decode_digit-encode_digit (ms / 2 ^ 25 % 32) (omega arith) in
    let d20 = decode_digit-encode_digit (ms / 2 ^ 20 % 32) (omega arith) in
    let d15 = decode_digit-encode_digit (ms / 2 ^ 15 % 32) (omega arith) in
    let d10 = decode_digit-encode_digit (ms / 2 ^ 10 % 32) (omega arith) in
    let d5 = decode_digit-encode_digit (ms / 2 ^ 5 % 32) (omega arith) in
    let d0 = decode_digit-encode_digit (ms % 32) (omega arith) in
    let t45 : 0 * 32 + ms / 2 ^ 45 % 32 ≡ ms / 2 ^ 45 = omega (arith, h) in
    let t40 : ms / 2 ^ 45 * 32 + ms / 2 ^ 40 % 32 ≡ ms / 2 ^ 40 = omega arith in
    let t35 : ms / 2 ^ 40 * 32 + ms / 2 ^ 35 % 32 ≡ ms / 2 ^ 35 = omega arith in
    let t30 : ms / 2 ^ 35 * 32 + ms / 2 ^ 30 % 32 ≡ ms / 2 ^ 30 = omega arith in
    let t25 : ms / 2 ^ 30 * 32 + ms / 2 ^ 25 % 32 ≡ ms / 2 ^ 25 = omega arith in
    let t20 : ms / 2 ^ 25 * 32 + ms / 2 ^ 20 % 32 ≡ ms / 2 ^ 20 = omega arith in
    let t15 : ms / 2 ^ 20 * 32 + ms / 2 ^ 15 % 32 ≡ ms / 2 ^ 15 = omega arith in
    let t10 : ms / 2 ^ 15 * 32 + ms / 2 ^ 10 % 32 ≡ ms / 2 ^ 10 = omega arith in
    let t5 : ms / 2 ^ 10 * 32 + ms / 2 ^ 5 % 32 ≡ ms / 2 ^ 5 = omega arith in
    let t0 : ms / 2 ^ 5 * 32 + ms % 32 ≡ ms = omega arith in
    rw (d45, d40, d35, d30, d25, d20, d15, d10, d5, d0, t45, t40, t35, t30, t25, t20, t15, t10, t5)
      t0
