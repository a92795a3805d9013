-- ===== src/Strings/Decimal.antt =====
-- `strconv.Itoa` on the numbers from 0 on, and `strconv.Atoi`, where `none` is an error of either
-- kind: a text that is no numeral, and a number that no `int64` holds.
pub mod RoundTrip
use canterbury.Base.{
  ℕ, zero, suc, ◌+◌, ◌-◌, ◌*◌, ◌/◌, ◌%◌, ◌^◌, Bool, ◌&&◌, Option, none, some, List, [], ◌∷◌, ◌++◌,
  Bytes, ltb, leb, ◌==◌, if◌then◌else◌,
}
use canterbury.Base.Int.{ℤ, pos, negsuc}

abbrev pub digit : ℕ → ℕ
digit n = n % 10 + b'0'

-- The fuel is at least the number: each round divides it by ten.
unfoldable pub digits : ℕ → ℕ → Bytes
digits zero n = digit n ∷ []
digits (suc fuel) n =
    let front = digits fuel (n / 10) in if ltb n 10 then digit n ∷ [] else front ++ digit n ∷ []

unfoldable pub itoa : ℕ → Bytes
itoa n = digits n n

abbrev pub is_digit : ℕ → Bool
is_digit c = leb b'0' c && leb c b'9'

unfoldable pub scan : ℕ → Bytes → Option ℕ
scan n [] = some n
scan n (c ∷ s) = let rest = scan (n * 10 + (c - b'0')) s in if is_digit c then rest else none

unfoldable pub magnitude : Bytes → Option ℕ
magnitude [] = none
magnitude (c ∷ s) = scan 0 (c ∷ s)

at_most : ℕ → Option ℕ → Option ℕ
at_most limit none = none
at_most limit (some n) = if leb n limit then some n else none

positive : Option ℕ → Option ℤ
positive none = none
positive (some n) = some (pos n)

negative : Option ℕ → Option ℤ
negative none = none
negative (some zero) = some (pos 0)
negative (some (suc n)) = some (negsuc n)

unfoldable pub atoi : Bytes → Option ℤ
unfolding at_most positive negative
atoi [] = none
atoi (c ∷ s) =
    if c == b'-'
    then negative (at_most (2 ^ 63) (magnitude s))
    else if c == b'+'
    then positive (at_most (2 ^ 63 - 1) (magnitude s))
    else positive (at_most (2 ^ 63 - 1) (magnitude (c ∷ s)))
