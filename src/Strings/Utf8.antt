-- ===== src/Strings/Utf8.antt =====
-- The package `unicode/utf8` as the program uses it, and `strings.Fields`.
use canterbury.Base.{
  ℕ, zero, suc, Bool, false, ◌&&◌, not, List, [], ◌∷◌, Bytes, drop, length, leb, ltb, ◌==◌,
  if◌then◌else◌,
}
use canterbury.Strings.Trim.{is_empty, space_width}
use canterbury.Strings.Split.{cons_first}

abbrev between : ℕ → ℕ → ℕ → Bool
between low high c = leb low c && leb c high

-- `utf8.RuneStart`
unfoldable pub rune_start : ℕ → Bool
rune_start c = not (between 0x80 0xbf c)

abbrev continues : Bytes → Bool
continues [] = false
continues (c ∷ s) = between 0x80 0xbf c

-- Whether the second byte may follow the first, which leads a character of three or four bytes.
abbrev follows3 : ℕ → ℕ → Bool
follows3 a b =
    if a == 0xe0
    then between 0xa0 0xbf b
    else if a == 0xed
    then between 0x80 0x9f b
    else between 0x80 0xbf b

abbrev follows4 : ℕ → ℕ → Bool
follows4 a b =
    if a == 0xf0
    then between 0x90 0xbf b
    else if a == 0xf4
    then between 0x80 0x8f b
    else between 0x80 0xbf b

size2 : Bytes → ℕ
size2 s = if continues s then 2 else 1

size3 : ℕ → Bytes → ℕ
size3 a [] = 1
size3 a (b ∷ s) = if follows3 a b && continues s then 3 else 1

size4 : ℕ → Bytes → ℕ
size4 a [] = 1
size4 a (b ∷ []) = 1
size4 a (b ∷ c ∷ s) = if follows4 a b && between 0x80 0xbf c && continues s then 4 else 1

-- The size that `utf8.DecodeRuneInString` returns: 0 on no bytes, 1 on an invalid one.
unfoldable pub rune_size : Bytes → ℕ
unfolding size2 size3 size4
rune_size [] = 0
rune_size (a ∷ s) =
    if ltb a 0x80
    then 1
    else if between 0xc2 0xdf a
    then size2 s
    else if between 0xe0 0xef a
    then size3 a s
    else if between 0xf0 0xf4 a
    then size4 a s
    else 1

unfoldable pub rune_count_from : ℕ → Bytes → ℕ
rune_count_from zero s = 0
rune_count_from (suc fuel) [] = 0
rune_count_from (suc fuel) (a ∷ s) = suc (rune_count_from fuel (drop (rune_size (a ∷ s)) (a ∷ s)))

-- `utf8.RuneCountInString`: a character has at least one byte, so that the length is enough fuel.
unfoldable pub rune_count : Bytes → ℕ
unfolding rune_count_from
rune_count s = rune_count_from (length s) s

-- The first argument counts the bytes that are left of a white space character.
unfoldable pub split_spaces : ℕ → Bytes → List Bytes
split_spaces k [] = [] ∷ []
split_spaces (suc k) (a ∷ s) = split_spaces k s
split_spaces zero (a ∷ s) = elim (space_width (a ∷ s)) [
  | zero ↦ cons_first a (split_spaces zero s)
  | suc k ↦ [] ∷ split_spaces k s
]

unfoldable pub without_empty : List Bytes → List Bytes
without_empty [] = []
without_empty (word ∷ words) =
    let rest = without_empty words in if is_empty word then rest else word ∷ rest

-- `strings.Fields`
unfoldable pub fields : Bytes → List Bytes
unfolding split_spaces without_empty
fields s = without_empty (split_spaces zero s)
