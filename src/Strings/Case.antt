-- ===== src/Strings/Case.antt =====
-- `strings.ToLower` and `strings.EqualFold` against an ASCII word. Like the library function, the
-- ASCII texts are mapped byte by byte; on the others the table of Unicode is a parameter.
use canterbury.Base.{
  ℕ, ◌+◌, Bool, ◌&&◌, [], ◌∷◌, ◌≡◌, refl, map, arith, Bytes, all, leb, ltb, ◌=s=◌, if◌then◌else◌,
}

unfoldable pub lower_byte : ℕ → ℕ
lower_byte c = if leb b'A' c && leb c b'Z' then c + 32 else c

abbrev pub is_ascii : Bytes → Bool
is_ascii s = all (λ c. ltb c 0x80) s

module _ (lower_unicode : Bytes → Bytes) where
  unfoldable pub to_lower : Bytes → Bytes
  to_lower s = if is_ascii s then map lower_byte s else lower_unicode s

-- No letter of the words that the program compares has a fold outside ASCII.
unfoldable pub equal_fold : Bytes → Bytes → Bool
equal_fold s word = map lower_byte s =s= map lower_byte word

lower_byte_idem : (c : ℕ) → lower_byte (lower_byte c) ≡ lower_byte c
unfolding lower_byte
lower_byte_idem c = ground arith

pub map-lower_byte_idem : (s : Bytes) → map lower_byte (map lower_byte s) ≡ map lower_byte s
map-lower_byte_idem [] = refl
map-lower_byte_idem (c ∷ s) = λ i. lower_byte_idem c i ∷ map-lower_byte_idem s i
