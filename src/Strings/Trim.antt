-- ===== src/Strings/Trim.antt =====
-- `strings.TrimSpace`: the white space of `unicode.IsSpace`, in its UTF-8 encoding.
pub mod Laws
use canterbury.Base.{
  ℕ, zero, suc, Bool, true, false, ◌&&◌, ◌||◌, [], ◌∷◌, Bytes, leb, ◌==◌, if◌then◌else◌,
}

-- \t \n \v \f \r and the blank
is_ascii_space : ℕ → Bool
is_ascii_space a = leb 0x09 a && leb a 0x0d || a == 0x20

-- U+0085 and U+00A0
is_space2 : ℕ → ℕ → Bool
is_space2 a b = a == 0xc2 && (b == 0x85 || b == 0xa0)

-- U+2000 to U+200A, U+2028, U+2029 and U+202F
is_space_2000 : ℕ → Bool
is_space_2000 c = leb 0x80 c && leb c 0x8a || c == 0xa8 || c == 0xa9 || c == 0xaf

-- U+1680, the block of U+2000, U+205F and U+3000
is_space3 : ℕ → ℕ → ℕ → Bool
unfolding is_space_2000
is_space3 a b c =
    a == 0xe1 && b == 0x9a && c == 0x80
    || a == 0xe2 && b == 0x80 && is_space_2000 c
    || a == 0xe2 && b == 0x81 && c == 0x9f
    || a == 0xe3 && b == 0x80 && c == 0x80

width3 : ℕ → ℕ → Bytes → ℕ
width3 a b [] = 0
width3 a b (c ∷ s) = if is_space3 a b c then 3 else 0

width2 : ℕ → Bytes → ℕ
width2 a [] = 0
width2 a (b ∷ s) = if is_space2 a b then 2 else width3 a b s

-- The number of bytes of the white space character at the front, 0 where there is none.
unfoldable pub space_width : Bytes → ℕ
unfolding is_ascii_space is_space2 is_space3 width2 width3
space_width [] = 0
space_width (a ∷ s) = if is_ascii_space a then 1 else width2 a s

-- The first argument counts the bytes that are left of a white space character.
unfoldable pub trim_left_from : ℕ → Bytes → Bytes
trim_left_from k [] = []
trim_left_from (suc k) (a ∷ s) = trim_left_from k s
trim_left_from zero (a ∷ s) = elim (space_width (a ∷ s)) [
  | zero ↦ a ∷ s
  | suc k ↦ trim_left_from k s
]

unfoldable pub trim_left : Bytes → Bytes
trim_left s = trim_left_from zero s

abbrev pub is_empty : Bytes → Bool
is_empty [] = true
is_empty (a ∷ s) = false

-- The longest suffix of white space is dropped.
unfoldable pub trim_right : Bytes → Bytes
trim_right [] = []
trim_right (a ∷ s) = if is_empty (trim_left (a ∷ s)) then [] else a ∷ trim_right s

unfoldable pub trim_space : Bytes → Bytes
trim_space s = trim_right (trim_left s)

-- Opens the trimming functions where a text is trimmed by evaluation.
unfoldable pub trimming : Unit {0}
unfolding space_width trim_left_from trim_left trim_right trim_space
trimming = tt
