-- ===== src/Encoding/Json/Laws.antt =====
-- What is printed holds no control character, and so no line feed.
use canterbury.Base.{
  ℕ, zero, suc, ◌≤◌, Bool, true, false, [], ◌∷◌, ◌++◌, Bytes, take, drop, length, ltb, ◌==◌, ◌&&◌,
  ◌||◌, if◌then◌else◌, All, All-append, All-mono, ◌≡◌, refl, arith,
}
use canterbury.Base.Int.{ℤ, pos, negsuc}
use canterbury.Strings.Utf8.{rune_size}
use canterbury.Strings.Decimal.{itoa}
use canterbury.Strings.Decimal.RoundTrip.{IsDigit, itoa-All}
use canterbury.Encoding.Json.{
  Json, Elements, Members, null, boolean, number, string, array, object, nil, cons, end, member,
  quote, is_safe, escape_byte, escape_rune, escape_from, print_string, print_number, print,
  print_elements, print_members,
}

abbrev pub Printable : Bytes → Type 0
Printable s = All (λ c. 0x20 ≤ c) s

both : (s t : Bytes) → Printable s → Printable t → Printable (s ++ t)
both s t h k = All-append (λ c. 0x20 ≤ c) s t h k

if-Printable :
    (b : Bool) (s t : Bytes)
    → (b ≡ true → Printable s)
    → (b ≡ false → Printable t)
    → Printable (if b then s else t)
if-Printable true s t h k = h refl
if-Printable false s t h k = k refl

escape_byte-Printable : (c : ℕ) → Printable (escape_byte c)
unfolding escape_byte
escape_byte-Printable c =
    if-Printable ((c == quote) || (c == 0x5c)) _ _ (λ e. (omega arith, (ground arith, tt)))
      (λ _.
        if-Printable (c == 0x08) _ _ (λ _. omega arith)
          (λ _.
            if-Printable (c == 0x0c) _ _ (λ _. omega arith)
              (λ _.
                if-Printable (c == 0x0a) _ _ (λ _. omega arith)
                  (λ _.
                    if-Printable (c == 0x0d) _ _ (λ _. omega arith)
                      (λ _. if-Printable (c == 0x09) _ _ (λ _. omega arith) (λ _. ground arith))))))

-- The bytes of a character outside ASCII.
take_rune-high :
    (c : ℕ) (s : Bytes) → 0x80 ≤ c → All (λ b. 0x80 ≤ b) (take (rune_size (c ∷ s)) (c ∷ s))
unfolding rune_size
take_rune-high c [] h = ground arith
take_rune-high c (b ∷ []) h = ground arith
take_rune-high c (b ∷ d ∷ []) h = ground arith
take_rune-high c (b ∷ d ∷ e ∷ s) h = ground arith

high-Printable : (s : Bytes) → All (λ b. 0x80 ≤ b) s → Printable s
high-Printable s h = All-mono (λ b. 0x80 ≤ b) (λ b. 0x20 ≤ b) (λ b k. omega arith) s h

escape_rune-Printable : (s : Bytes) → All (λ b. 0x80 ≤ b) s → Printable (escape_rune s)
unfolding escape_rune
escape_rune-Printable [] h = tt
escape_rune-Printable (a ∷ []) h = omega arith
escape_rune-Printable (a ∷ b ∷ []) h = omega arith
escape_rune-Printable (a ∷ b ∷ c ∷ []) h =
    if-Printable ((a == 0xe2) && (b == 0x80) && (c == 0xa8)) _ _ (λ _. omega arith)
      (λ _.
        if-Printable ((a == 0xe2) && (b == 0x80) && (c == 0xa9)) _ _ (λ _. omega arith)
          (λ _. omega arith))
escape_rune-Printable (a ∷ b ∷ c ∷ d ∷ s) h = high-Printable (a ∷ b ∷ c ∷ d ∷ s) h

digit-le : (c : ℕ) → IsDigit c → 0x20 ≤ c
digit-le c h = ground arith

itoa-Printable : (n : ℕ) → Printable (itoa n)
itoa-Printable n = All-mono IsDigit (λ c. 0x20 ≤ c) digit-le (itoa n) (itoa-All n)

print_number-Printable : (n : ℤ) → Printable (print_number n)
unfolding print_number
print_number-Printable (pos n) = itoa-Printable n
print_number-Printable (negsuc n) = (omega arith, itoa-Printable (suc n))

escape_from-Printable : (fuel : ℕ) (s : Bytes) → Printable (escape_from fuel s)
unfolding escape_from
escape_from-Printable zero s = tt
escape_from-Printable (suc fuel) [] = tt
escape_from-Printable (suc fuel) (c ∷ s) =
    let rest = escape_from-Printable fuel (drop (rune_size (c ∷ s)) (c ∷ s)) in
    if-Printable (is_safe c) (c ∷ escape_from fuel (drop (rune_size (c ∷ s)) (c ∷ s))) _
      (λ safe. (ground arith, rest))
      (λ _.
        if-Printable (ltb c 0x80) _ _ (λ _. both _ _ (escape_byte-Printable c) rest)
          (λ wide. both _ _ (escape_rune-Printable _ (take_rune-high c s (ground arith))) rest))

pub print_string-Printable : (s : Bytes) → Printable (print_string s)
unfolding print_string
print_string-Printable s =
    (omega arith, both _ _ (escape_from-Printable (length s) s) (omega arith))

mutual
  unfolding print print_elements print_members

  prints : (j : Json) → Printable (print j)
  prints null = omega arith
  prints (boolean true) = omega arith
  prints (boolean false) = omega arith
  prints (number n) = print_number-Printable n
  prints (string s) = print_string-Printable s
  prints (array elements) = (omega arith, both _ _ (prints_elements elements) (omega arith))
  prints (object members) = (omega arith, both _ _ (prints_members members) (omega arith))

  prints_elements : (elements : Elements) → Printable (print_elements elements)
  prints_elements nil = tt
  prints_elements (cons j nil) = prints j
  prints_elements (cons j (cons k elements)) =
      both _ _ (prints j) (omega arith, prints_elements (cons k elements))

  prints_members : (members : Members) → Printable (print_members members)
  prints_members end = tt
  prints_members (member key j end) = both _ _ (print_string-Printable key) (omega arith, prints j)
  prints_members (member key j (member key' k members)) =
      both _ _ (print_string-Printable key)
        (omega arith, both _ _ (prints j) (omega arith, prints_members (member key' k members)))

pub print-Printable : (j : Json) → Printable (print j)
print-Printable j = prints j
