-- ===== src/Strings/Trim/Laws.antt =====
-- Trimming twice is trimming once, and what is trimmed is a part of the text.
use mathlib.Core.List.{cons-ne-nil}
use mathlib.Core.Bool.{false≢true}
use canterbury.Base.{
  ℕ, zero, suc, ◌≡◌, refl, sym, ap, ◌∙◌, true, false, [], ◌∷◌, ◌++◌, arith, Bytes, length, ◌≤◌,
  Bool-cases, ℕ-cases, inl, inr,
}
use canterbury.Strings.Trim.{
  width2, width3, space_width, trim_left_from, trim_left, is_empty, trim_right, trim_space,
}

-- White space is recognised by its own bytes: what stands behind it does not matter.
space_width-append : (s t : Bytes) {k : ℕ} → space_width s ≡ suc k → space_width (s ++ t) ≡ suc k
unfolding space_width width2 width3
space_width-append [] t e = absurd (omega arith)
space_width-append (a ∷ []) t e = ground arith
space_width-append (a ∷ b ∷ []) t e = ground arith
space_width-append (a ∷ b ∷ c ∷ s) t e = e

-- A part in front of a text that does not begin with white space does not begin with any.
space_width-prefix : (s t : Bytes) → space_width (s ++ t) ≡ 0 → space_width s ≡ 0
space_width-prefix s t e = elim (ℕ-cases (space_width s)) [
  | inl none_there ↦ none_there
  | inr (k, h) ↦ absurd (omega (arith, space_width-append s t h))
]

trim_left_from-width : (k : ℕ) (s : Bytes) → space_width (trim_left_from k s) ≡ 0
unfolding trim_left_from
trim_left_from-width k [] = unfold space_width in refl
trim_left_from-width (suc k) (a ∷ s) = trim_left_from-width k s
trim_left_from-width zero (a ∷ s) = elim (ℕ-cases (space_width (a ∷ s))) [
  | inl e ↦ rw (e, trim_left_from) e
  | inr (k, e) ↦ rw (e, trim_left_from) (trim_left_from-width k s)
]

-- After `trim_left` no white space stands in front.
pub trim_left-width : (s : Bytes) → space_width (trim_left s) ≡ 0
unfolding trim_left
trim_left-width s = trim_left_from-width zero s

-- A text that does not begin with white space is left alone.
pub trim_left_of_width : (s : Bytes) → space_width s ≡ 0 → trim_left s ≡ s
unfolding trim_left trim_left_from
trim_left_of_width [] e = refl
trim_left_of_width (a ∷ s) e = rw (e, trim_left_from)

is_empty-eq : (s : Bytes) → is_empty s ≡ true → s ≡ []
is_empty-eq [] e = refl
is_empty-eq (a ∷ s) e = cc

space_width-le : (s : Bytes) → space_width s ≤ length s
unfolding space_width width2 width3
space_width-le [] = omega arith
space_width-le (a ∷ []) = ground arith
space_width-le (a ∷ b ∷ []) = ground arith
space_width-le (a ∷ b ∷ c ∷ s) = ground arith

-- White space in front of white space is white space.
trim_left_from-append :
    (k : ℕ) (s t : Bytes)
    → k ≤ length s
    → trim_left_from k s ≡ []
    → trim_left t ≡ []
    → trim_left_from k (s ++ t) ≡ []
unfolding trim_left_from
trim_left_from-append zero [] t h e b = unfold trim_left in b
trim_left_from-append (suc k) [] t h e b = absurd (omega arith)
trim_left_from-append (suc k) (a ∷ s) t h e b = trim_left_from-append k s t (omega arith) e b
trim_left_from-append zero (a ∷ s) t h e b = elim (ℕ-cases (space_width (a ∷ s))) [
  | inl w ↦ absurd (cons-ne-nil a s (rw (w, trim_left_from) at e))
  | inr (k, w) ↦
      rw (space_width-append (a ∷ s) t w, trim_left_from)
        (trim_left_from-append k s t (omega (arith, space_width-le (a ∷ s)))
          (rw (w, trim_left_from) at e) b)
]

trim_left-append : (s t : Bytes) → trim_left s ≡ [] → trim_left t ≡ [] → trim_left (s ++ t) ≡ []
unfolding trim_left
trim_left-append s t e b = trim_left_from-append zero s t (omega arith) e b

-- `trim_right` drops a suffix of white space and nothing else.
trim_right-split : (s : Bytes) → (r : Bytes) × (s ≡ trim_right s ++ r) × (trim_left r ≡ [])
unfolding trim_right
trim_right-split [] = ([], refl, unfold trim_left trim_left_from in refl)
trim_right-split (a ∷ s) = elim (Bool-cases (is_empty (trim_left (a ∷ s)))) [
  | inl blank ↦ (a ∷ s, rw (blank, trim_right), is_empty-eq _ blank)
  | inr text ↦ let (r, e, b) = trim_right-split s in (r, rw (text, trim_right) (ap (◌∷◌ a) e), b)
]

-- A text that is not blank does not become blank by trimming its end.
trim_right-keeps :
    (a : ℕ) (s : Bytes)
    → is_empty (trim_left (a ∷ s)) ≡ false
    → is_empty (trim_left (a ∷ trim_right s)) ≡ false
trim_right-keeps a s text = elim (Bool-cases (is_empty (trim_left (a ∷ trim_right s)))) [
  | inl blank ↦
      let (r, e, b) = trim_right-split s in
      let joined : trim_left (a ∷ s) ≡ [] =
        rw e (trim_left-append (a ∷ trim_right s) r (is_empty-eq _ blank) b) in
      absurd (false≢true (sym text ∙ ap is_empty joined))
  | inr kept ↦ kept
]

pub trim_right_idem : (s : Bytes) → trim_right (trim_right s) ≡ trim_right s
unfolding trim_right
trim_right_idem [] = refl
trim_right_idem (a ∷ s) = elim (Bool-cases (is_empty (trim_left (a ∷ s)))) [
  | inl blank ↦ rw (blank, trim_right)
  | inr text ↦
      rw (text, trim_right) (rw (trim_right-keeps a s text, trim_right) (rw (trim_right_idem s)))
]

pub trim_right-width : (s : Bytes) → space_width s ≡ 0 → space_width (trim_right s) ≡ 0
trim_right-width s e =
    let (r, split, _) = trim_right-split s in space_width-prefix (trim_right s) r (rw split at e)

-- Trimming a second time changes nothing.
pub trim_space_idem : (s : Bytes) → trim_space (trim_space s) ≡ trim_space s
unfolding trim_space
trim_space_idem s =
    let e = trim_left_of_width _ (trim_right-width (trim_left s) (trim_left-width s)) in
    rw e (trim_right_idem (trim_left s))

trim_left_from-length : (k : ℕ) (s : Bytes) → length (trim_left_from k s) ≤ length s
unfolding trim_left_from
trim_left_from-length k [] = omega arith
trim_left_from-length (suc k) (a ∷ s) = omega (arith, trim_left_from-length k s)
trim_left_from-length zero (a ∷ s) = elim (ℕ-cases (space_width (a ∷ s))) [
  | inl w ↦ rw (w, trim_left_from) (omega arith)
  | inr (k, w) ↦ rw (w, trim_left_from) (omega (arith, trim_left_from-length k s))
]

trim_right-length : (s : Bytes) → length (trim_right s) ≤ length s
unfolding trim_right
trim_right-length [] = omega arith
trim_right-length (a ∷ s) = ground (arith, trim_right-length s)

pub trim_space-length : (s : Bytes) → length (trim_space s) ≤ length s
unfolding trim_space trim_left
trim_space-length s = omega (arith, trim_right-length (trim_left s), trim_left_from-length zero s)
