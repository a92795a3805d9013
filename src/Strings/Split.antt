-- ===== src/Strings/Split.antt =====
-- `strings.Split` at a separator of one byte, and `strings.Join`.
pub mod Laws
use canterbury.Base.{ℕ, List, [], ◌∷◌, ◌++◌, Bytes, ◌==◌, if◌then◌else◌}

abbrev pub cons_first : ℕ → List Bytes → List Bytes
cons_first c [] = (c ∷ []) ∷ []
cons_first c (part ∷ parts) = (c ∷ part) ∷ parts

unfoldable pub split_on : ℕ → Bytes → List Bytes
split_on sep [] = [] ∷ []
split_on sep (c ∷ s) =
    let parts = split_on sep s in if c == sep then [] ∷ parts else cons_first c parts

unfoldable pub join : ℕ → List Bytes → Bytes
join sep [] = []
join sep (part ∷ []) = part
join sep (part ∷ next ∷ parts) = part ++ sep ∷ join sep (next ∷ parts)
