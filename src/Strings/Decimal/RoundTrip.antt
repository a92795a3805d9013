-- ===== src/Strings/Decimal/RoundTrip.antt =====
-- Printing a number and reading it again, and what a printed number is made of.
use canterbury.Base.{
  ℕ, zero, suc, ◌+◌, ◌-◌, ◌*◌, ◌/◌, ◌^◌, ◌≤◌, true, false, some, [], ◌∷◌, ◌++◌, ◌≡◌, ◌≢◌, refl,
  arith, Bytes, All, All-append, inl, inr, Bool-cases, ltb, ◌==◌,
}
use canterbury.Base.Int.{pos}
use canterbury.Strings.Trim.{trimming, trim_right, trim_space, space_width}
use canterbury.Strings.Trim.Laws.{trim_left_of_width}
use canterbury.Strings.Decimal.{digit, digits, itoa, is_digit, scan, magnitude, atoi}

abbrev pub IsDigit : ℕ → Type 0
IsDigit c = is_digit c ≡ true

scan-append :
    (n : ℕ) (s : Bytes) (c : ℕ) {m : ℕ}
    → scan n s ≡ some m
    → IsDigit c
    → scan n (s ++ c ∷ []) ≡ some (m * 10 + (c - b'0'))
unfolding scan
scan-append n [] c h d = ground arith
scan-append n (x ∷ s) c {m} h d = ground (arith, scan-append (n * 10 + (x - b'0')) s c {m = m})

digit-IsDigit : (n : ℕ) → IsDigit (digit n)
digit-IsDigit n = ground arith

pub digits-All : (fuel n : ℕ) → All IsDigit (digits fuel n)
unfolding digits
digits-All zero n = (digit-IsDigit n, tt)
digits-All (suc fuel) n = elim (Bool-cases (ltb n 10)) [
  | inl small ↦ rw small (digit-IsDigit n, tt)
  | inr large ↦ rw large (All-append IsDigit _ _ (digits-All fuel (n / 10)) (digit-IsDigit n, tt))
]

scan-digits : (fuel n : ℕ) → n ≤ fuel → scan 0 (digits fuel n) ≡ some n
unfolding digits scan
scan-digits zero n h = ground arith
scan-digits (suc fuel) n h = elim (Bool-cases (ltb n 10)) [
  | inl small ↦ rw small (ground arith)
  | inr large ↦
      let tail =
        scan-append 0 (digits fuel (n / 10)) (digit n) (scan-digits fuel (n / 10) (ground arith))
          (digit-IsDigit n) in
      let value : n / 10 * 10 + (digit n - b'0') ≡ n = omega arith in
      rw large (rw tail (rw value refl))
]

pub digits-ne-nil : (fuel n : ℕ) → digits fuel n ≢ []
unfolding digits
digits-ne-nil zero n e = cc
digits-ne-nil (suc fuel) n e = elim (Bool-cases (ltb n 10)) [
  | inl small ↦ cc (rw small at e)
  | inr large ↦ append-ne-nil (digits fuel (n / 10)) (rw large at e)
]
  where
    append-ne-nil : (s : Bytes) → s ++ digit n ∷ [] ≢ []
    append-ne-nil [] h = cc
    append-ne-nil (c ∷ s) h = cc

atoi_of_digits :
    (s : Bytes) {n : ℕ}
    → All IsDigit s
    → s ≢ []
    → scan 0 s ≡ some n
    → n ≤ 2 ^ 63 - 1
    → atoi s ≡ some (pos n)
unfolding atoi magnitude
atoi_of_digits [] d ne h small = absurd (ne refl)
atoi_of_digits (c ∷ s) (d, ds) ne h small =
    let not_minus : (c == b'-') ≡ false = ground arith in
    let not_plus : (c == b'+') ≡ false = ground arith in
    rw not_minus (rw not_plus (rw h (ground arith)))

-- A number that an `int64` holds is read as it was printed.
pub atoi-itoa : (n : ℕ) → n ≤ 2 ^ 63 - 1 → atoi (itoa n) ≡ some (pos n)
unfolding itoa
atoi-itoa n small =
    atoi_of_digits (digits n n) (digits-All n n) (digits-ne-nil n n) (scan-digits n n (omega arith))
      small

digit-width : (c : ℕ) (s : Bytes) → IsDigit c → space_width (c ∷ s) ≡ 0
unfolding trimming space_width
digit-width c [] d = ground arith
digit-width c (a ∷ []) d = ground arith
digit-width c (a ∷ b ∷ s) d = ground arith

trim_right_of_digits : (s : Bytes) → All IsDigit s → trim_right s ≡ s
unfolding trim_right
trim_right_of_digits [] h = refl
trim_right_of_digits (c ∷ s) (d, h) =
    rw (trim_left_of_width (c ∷ s) (digit-width c s d)) (rw (trim_right_of_digits s h) refl)

trim_space_of_digits : (s : Bytes) → All IsDigit s → trim_space s ≡ s
unfolding trim_space
trim_space_of_digits [] h = unfold trimming in refl
trim_space_of_digits (c ∷ s) (d, h) =
    rw (trim_left_of_width (c ∷ s) (digit-width c s d)) (trim_right_of_digits (c ∷ s) (d, h))

pub trim_space-itoa : (n : ℕ) → trim_space (itoa n) ≡ itoa n
unfolding itoa
trim_space-itoa n = trim_space_of_digits (digits n n) (digits-All n n)

pub itoa-All : (n : ℕ) → All IsDigit (itoa n)
unfolding itoa
itoa-All n = digits-All n n

pub itoa-ne-nil : (n : ℕ) → itoa n ≢ []
unfolding itoa
itoa-ne-nil n = digits-ne-nil n n
