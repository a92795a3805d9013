-- ===== src/Strings/Affix.antt =====
-- `HasPrefix`, `HasSuffix`, `Contains`, `Index`, `TrimPrefix`, `TrimSuffix`, `Cut` at a blank and
-- `ContainsAny` of the package `strings`.
use canterbury.Base.{
  ℕ, suc, ◌-◌, Bool, true, false, ◌&&◌, ◌||◌, Option, none, some, [], ◌∷◌, ◌++◌, ◌≡◌, refl, arith,
  Bytes, any, drop, take, length, ltb, ◌==◌, ◌=s=◌, if◌then◌else◌,
}

unfoldable pub has_prefix : Bytes → Bytes → Bool
has_prefix s [] = true
has_prefix [] (b ∷ p) = false
has_prefix (a ∷ s) (b ∷ p) = a == b && has_prefix s p

unfoldable pub has_suffix : Bytes → Bytes → Bool
has_suffix s p = if ltb (length s) (length p) then false else drop (length s - length p) s =s= p

-- `strings.Index`, where `none` is -1
unfoldable pub index : Bytes → Bytes → Option ℕ
index [] p = if has_prefix [] p then some 0 else none
index (a ∷ s) p =
    let rest = index s p in
    if has_prefix (a ∷ s) p then some 0 else elim rest [ none ↦ none | some i ↦ some (suc i) ]

unfoldable pub contains : Bytes → Bytes → Bool
contains [] p = has_prefix [] p
contains (a ∷ s) p = has_prefix (a ∷ s) p || contains s p

unfoldable pub trim_prefix : Bytes → Bytes → Bytes
trim_prefix s p = if has_prefix s p then drop (length p) s else s

unfoldable pub trim_suffix : Bytes → Bytes → Bytes
trim_suffix s p = if has_suffix s p then take (length s - length p) s else s

-- `strings.Cut(s, sep)` for a separator of one byte: what stands before and after the first one
unfoldable pub cut : ℕ → Bytes → Option (Bytes × Bytes)
cut sep [] = none
cut sep (a ∷ s) =
    let rest = cut sep s in
    if a == sep
    then some ([], s)
    else elim rest [ none ↦ none | some (before, after) ↦ some (a ∷ before, after) ]

-- `strings.ContainsAny` for a set of ASCII bytes
unfoldable pub contains_any : Bytes → Bytes → Bool
contains_any s chars = any (λ a. any (λ c. a == c) chars) s

pub has_prefix_append : (p s : Bytes) → has_prefix (p ++ s) p ≡ true
unfolding has_prefix
has_prefix_append [] s = refl
has_prefix_append (a ∷ p) s = ground (arith, has_prefix_append p s)

pub has_prefix_split : (s p : Bytes) → has_prefix s p ≡ true → (r : Bytes) × (s ≡ p ++ r)
unfolding has_prefix
has_prefix_split s [] h = (s, refl)
has_prefix_split [] (b ∷ p) h = absurd (ground arith)
has_prefix_split (a ∷ s) (b ∷ p) h =
    let (r, e) = has_prefix_split s p (ground arith) in (r, ground arith)
