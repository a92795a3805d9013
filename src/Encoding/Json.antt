-- ===== src/Encoding/Json.antt =====
-- `json.Marshal` on the values that the program encodes. An object's fields stand in the order of
-- the fields of the Go structure.
pub mod Laws
use canterbury.Base.{
  ℕ, zero, suc, ◌+◌, ◌/◌, ◌%◌, ◌-◌, Bool, true, false, ◌||◌, ◌&&◌, List, [], ◌∷◌, ◌++◌, Bytes,
  codes, take, drop, length, ltb, leb, ◌==◌, if◌then◌else◌,
}
use canterbury.Base.Int.{ℤ, pos, negsuc}
use canterbury.Strings.Utf8.{rune_size}
use canterbury.Strings.Decimal.{itoa}

mutual
  pub data Json : Type 0 where
    null : Json
    boolean : Bool → Json
    number : ℤ → Json
    string : Bytes → Json
    array : Elements → Json
    object : Members → Json

  pub data Elements : Type 0 where
    nil : Elements
    cons : Json → Elements → Elements

  pub data Members : Type 0 where
    end : Members
    member : Bytes → Json → Members → Members

-- A list of texts.
unfoldable pub strings : List Bytes → Elements
strings [] = nil
strings (s ∷ ss) = cons (string s) (strings ss)

abbrev pub quote : ℕ
quote = 0x22

abbrev backslash : ℕ
backslash = 0x5c

abbrev hex_digit : ℕ → ℕ
hex_digit n = if ltb n 10 then b'0' + n else b'a' + (n - 10)

-- A byte that stands for itself in a text of JSON, markup excluded.
abbrev pub is_safe : ℕ → Bool
is_safe c =
    leb 0x20 c
    && ltb c 0x80
    && (if (c == quote) || (c == backslash) || (c == b'<') || (c == b'>') || (c == b'&')
        then false
        else true)

-- The escape of a byte of ASCII that does not.
unfoldable pub escape_byte : ℕ → Bytes
escape_byte c =
    if (c == quote) || (c == backslash)
    then backslash ∷ c ∷ []
    else if c == 0x08
    then backslash ∷ b'b' ∷ []
    else if c == 0x0c
    then backslash ∷ b'f' ∷ []
    else if c == 0x0a
    then backslash ∷ b'n' ∷ []
    else if c == 0x0d
    then backslash ∷ b'r' ∷ []
    else if c == 0x09
    then backslash ∷ b't' ∷ []
    else backslash ∷ b'u' ∷ b'0' ∷ b'0' ∷ hex_digit (c / 16 % 16) ∷ hex_digit (c % 16) ∷ []

-- A character of several bytes: U+2028 and U+2029, which separate lines in JavaScript, and a byte
-- that is no character, are escaped.
unfoldable pub escape_rune : Bytes → Bytes
escape_rune (a ∷ []) = codes "\\ufffd"
escape_rune (a ∷ b ∷ c ∷ []) =
    if (a == 0xe2) && (b == 0x80) && (c == 0xa8)
    then codes "\\u2028"
    else if (a == 0xe2) && (b == 0x80) && (c == 0xa9)
    then codes "\\u2029"
    else a ∷ b ∷ c ∷ []
escape_rune s = s

-- The bytes of a text. Each round takes one at least, so that the length is enough fuel.
unfoldable pub escape_from : ℕ → Bytes → Bytes
escape_from zero s = []
escape_from (suc fuel) [] = []
escape_from (suc fuel) (c ∷ s) =
    let size = rune_size (c ∷ s) in
    let rest = escape_from fuel (drop size (c ∷ s)) in
    if is_safe c
    then c ∷ rest
    else if ltb c 0x80
    then escape_byte c ++ rest
    else escape_rune (take size (c ∷ s)) ++ rest

unfoldable pub print_string : Bytes → Bytes
unfolding escape_from
print_string s = quote ∷ (escape_from (length s) s ++ quote ∷ [])

unfoldable pub print_number : ℤ → Bytes
print_number (pos n) = itoa n
print_number (negsuc n) = b'-' ∷ itoa (suc n)

unfoldable mutual
  pub print : Json → Bytes
  print null = codes "null"
  print (boolean true) = codes "true"
  print (boolean false) = codes "false"
  print (number n) = print_number n
  print (string s) = print_string s
  print (array elements) = b'[' ∷ (print_elements elements ++ b']' ∷ [])
  print (object members) = b'{' ∷ (print_members members ++ b'}' ∷ [])

  pub print_elements : Elements → Bytes
  print_elements nil = []
  print_elements (cons j nil) = print j
  print_elements (cons j (cons k elements)) = print j ++ b',' ∷ print_elements (cons k elements)

  pub print_members : Members → Bytes
  print_members end = []
  print_members (member key j end) = print_string key ++ b':' ∷ print j
  print_members (member key j (member key' k members)) =
      print_string key ++ b':' ∷ (print j ++ b',' ∷ print_members (member key' k members))
