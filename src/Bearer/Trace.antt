-- ===== src/Bearer/Trace.antt =====
-- internal/interfaces/vaultrpc/correlation.go: the trace identifier of a W3C `traceparent`.
use canterbury.Base.{
  ℕ, Bool, true, false, ◌||◌, ◌&&◌, not, Option, none, some, inl, inr, Bool-cases, List, [], ◌∷◌,
  ◌≡◌, refl, ◌∙◌, arith, Bytes, codes, length, length-map, all, ◌==◌, leb, if◌then◌else◌, map,
  subst,
}
use canterbury.Strings.Trim.{is_empty, trim_space}
use canterbury.Strings.Case.{equal_fold, to_lower, lower_byte, is_ascii}
use canterbury.Strings.Split.{split_on}

-- On the bytes of a text: no byte of a character outside ASCII is a digit.
abbrev pub is_hex_digit : ℕ → Bool
is_hex_digit c = leb b'0' c && leb c b'9' || leb b'a' c && leb c b'f' || leb b'A' c && leb c b'F'

unfoldable pub is_hex : Bytes → ℕ → Bool
is_hex value want_len = if not (length value == want_len) then false else all is_hex_digit value

unfoldable pub all_zero : Bytes → Bool
all_zero value = all (λ c. c == b'0') value

module _ (lower_unicode : Bytes → Bytes) where
  unfoldable pub trace_of_parts : List Bytes → Option Bytes
  trace_of_parts (version ∷ trace_id ∷ parent_id ∷ flags ∷ []) =
      if not (is_hex version 2)
        || not (is_hex trace_id 32)
        || not (is_hex parent_id 16)
        || not (is_hex flags 2)
      then none
      else if equal_fold version (codes "ff")
      then none
      else if all_zero trace_id || all_zero parent_id
      then none
      else some (to_lower lower_unicode trace_id)
  trace_of_parts _ = none

  -- `none` is the false of the second result. The argument is the value of the header.
  unfoldable pub trace_id_from_header : Bytes → Option Bytes
  unfolding trace_of_parts
  trace_id_from_header value =
      let trimmed = trim_space value in
      if is_empty trimmed then none else trace_of_parts (split_on b'-' trimmed)

abbrev pub is_lower_hex : ℕ → Bool
is_lower_hex c = leb b'0' c && leb c b'9' || leb b'a' c && leb c b'f'

-- A trace identifier: 32 digits in lower case, not all of them zero.
pub record IsTrace (id : Bytes) : Type 0 where
  pub width : length id ≡ 32
  pub digits : all is_lower_hex id ≡ true
  pub not_zero : all_zero id ≡ false

hex-is_ascii : (s : Bytes) → all is_hex_digit s ≡ true → is_ascii s ≡ true
hex-is_ascii [] h = refl
hex-is_ascii (c ∷ s) h = ground (arith, hex-is_ascii s)

hex-lower : (s : Bytes) → all is_hex_digit s ≡ true → all is_lower_hex (map lower_byte s) ≡ true
unfolding lower_byte
hex-lower [] h = refl
hex-lower (c ∷ s) h = ground (arith, hex-lower s)

hex-zero : (s : Bytes) → all is_hex_digit s ≡ true → all_zero (map lower_byte s) ≡ all_zero s
unfolding lower_byte all_zero
hex-zero [] h = refl
hex-zero (c ∷ s) h = ground (arith, hex-zero s)

is_hex-digits :
    (s : Bytes) (n : ℕ) → is_hex s n ≡ true → (length s ≡ n) × (all is_hex_digit s ≡ true)
unfolding is_hex
is_hex-digits s n h = ground arith

module _ (lower_unicode : Bytes → Bytes) where
  lowered-IsTrace :
      (s : Bytes) → is_hex s 32 ≡ true → all_zero s ≡ false → IsTrace (to_lower lower_unicode s)
  unfolding to_lower
  lowered-IsTrace s h filled =
      let (width, digits) = is_hex-digits s 32 h in
      rw (hex-is_ascii s digits) (record {
        width = length-map lower_byte s ∙ width;
        digits = hex-lower s digits;
        not_zero = hex-zero s digits ∙ filled;
      })

  trace_of_parts-IsTrace :
      (parts : List Bytes) {id : Bytes} → trace_of_parts lower_unicode parts ≡ some id → IsTrace id
  unfolding trace_of_parts
  trace_of_parts-IsTrace [] h = cc
  trace_of_parts-IsTrace (a ∷ []) h = cc
  trace_of_parts-IsTrace (a ∷ b ∷ []) h = cc
  trace_of_parts-IsTrace (a ∷ b ∷ c ∷ []) h = cc
  trace_of_parts-IsTrace (a ∷ b ∷ c ∷ d ∷ e ∷ parts) h = cc
  trace_of_parts-IsTrace (version ∷ trace_id ∷ parent_id ∷ flags ∷ []) {id} h =
      let hex : is_hex trace_id 32 ≡ true = ground arith in
      let filled : all_zero trace_id ≡ false = ground arith in
      let same : to_lower lower_unicode trace_id ≡ id = ground arith in
      subst IsTrace same (lowered-IsTrace trace_id hex filled)

  -- A trace identifier that is taken from a header has 32 digits in lower case, not all zero.
  pub trace_id_from_header-IsTrace :
      (value : Bytes) {id : Bytes} → trace_id_from_header lower_unicode value ≡ some id → IsTrace id
  unfolding trace_id_from_header
  trace_id_from_header-IsTrace value h = elim (Bool-cases (is_empty (trim_space value))) [
    | inl blank ↦ absurd (cc (rw blank at h))
    | inr text ↦ trace_of_parts-IsTrace (split_on b'-' (trim_space value)) (rw text at h)
  ]
