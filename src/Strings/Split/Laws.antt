-- ===== src/Strings/Split/Laws.antt =====
-- Splitting undoes joining, and joining undoes splitting.
use canterbury.Base.{
  ℕ, List, [], ◌∷◌, ◌++◌, ◌≡◌, ◌≢◌, refl, sym, ap, ◌∙◌, arith, Bytes, All, Bool-cases, inl, inr,
  ◌==◌, ==_iff,
}
use canterbury.Strings.Split.{cons_first, split_on, join}

abbrev pub Lacks : ℕ → Bytes → Type 0
Lacks sep part = All (λ c. c ≢ sep) part

cons_first-ne-nil : (c : ℕ) (parts : List Bytes) → cons_first c parts ≢ []
cons_first-ne-nil c [] e = cc
cons_first-ne-nil c (part ∷ parts) e = cc

module _ (sep : ℕ) where
  cons_first-Lacks :
      (c : ℕ) (parts : List Bytes)
      → c ≢ sep
      → All (Lacks sep) parts
      → All (Lacks sep) (cons_first c parts)
  cons_first-Lacks c [] ne h = ((ne, tt), tt)
  cons_first-Lacks c (part ∷ parts) ne (h, k) = ((ne, h), k)

  -- No part holds the separator.
  pub split_on-Lacks : (s : Bytes) → All (Lacks sep) (split_on sep s)
  unfolding split_on
  split_on-Lacks [] = (tt, tt)
  split_on-Lacks (c ∷ s) = ground (arith, cons_first-Lacks c (split_on sep s), split_on-Lacks s)

  -- There is at least one part.
  pub split_on-ne-nil : (s : Bytes) → split_on sep s ≢ []
  unfolding split_on
  split_on-ne-nil [] e = cc
  split_on-ne-nil (c ∷ s) e = ground (arith, cons_first-ne-nil c (split_on sep s))

  join-cons_first :
      (c : ℕ) (parts : List Bytes) → join sep (cons_first c parts) ≡ c ∷ join sep parts
  unfolding join
  join-cons_first c [] = refl
  join-cons_first c (part ∷ []) = refl
  join-cons_first c (part ∷ next ∷ parts) = refl

  join-nil : (parts : List Bytes) → parts ≢ [] → join sep ([] ∷ parts) ≡ sep ∷ join sep parts
  unfolding join
  join-nil [] ne = absurd (ne refl)
  join-nil (part ∷ parts) ne = refl

  pub join-split_on : (s : Bytes) → join sep (split_on sep s) ≡ s
  unfolding split_on
  join-split_on [] = unfold join in refl
  join-split_on (c ∷ s) = elim (Bool-cases (c == sep)) [
    | inl same ↦ rw same (
        join-nil (split_on sep s) (split_on-ne-nil s)
        ∙ (λ i. sym ((==_iff c sep).0 same) i ∷ join-split_on s i))
    | inr other ↦ rw other (join-cons_first c (split_on sep s) ∙ ap (◌∷◌ c) (join-split_on s))
  ]

pub split_on-part : (sep : ℕ) (part : Bytes) → Lacks sep part → split_on sep part ≡ part ∷ []
unfolding split_on
split_on-part sep [] h = refl
split_on-part sep (c ∷ s) (h, k) = ground (arith, split_on-part sep s k)

pub split_on-append :
    (sep : ℕ) (part s : Bytes)
    → Lacks sep part
    → split_on sep (part ++ sep ∷ s) ≡ part ∷ split_on sep s
unfolding split_on
split_on-append sep [] s h = ground arith
split_on-append sep (c ∷ part) s (h, k) = ground (arith, split_on-append sep part s k)

-- The parts of a joined text are the parts that were joined.
pub split_on-join :
    (sep : ℕ) (part : Bytes) (parts : List Bytes)
    → All (Lacks sep) (part ∷ parts)
    → split_on sep (join sep (part ∷ parts)) ≡ part ∷ parts
unfolding join
split_on-join sep part [] (h, _) = split_on-part sep part h
split_on-join sep part (next ∷ parts) (h, k) =
    split_on-append sep part _ h ∙ ap (◌∷◌ part) (split_on-join sep next parts k)
