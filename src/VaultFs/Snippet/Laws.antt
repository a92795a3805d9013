-- ===== src/VaultFs/Snippet/Laws.antt =====
-- The size of a snippet, and when one is built.
use canterbury.Base.{
  ℕ, zero, suc, ◌+◌, ◌-◌, ◌*◌, ◌≤◌, ◌<◌, Bool, false, ◌&&◌, inl, inr, none, some, Option-cases, [],
  ◌∷◌, ◌++◌, ◌≡◌, ◌≢◌, refl, ap, subst, ◌∙◌, arith, Bytes, length, take, drop, length-append,
  length-take, length-drop, Bool-cases, leb, ltb, some-inj, min,
}
use canterbury.Strings.Utf8.{rune_size, rune_count, rune_count_from}
use canterbury.VaultFs.Snippet.{
  snippet_ellipsis, clamp_to_rune_boundary, extend, with_ellipses, cut_from, truncate_snippet,
}

none≢some : {A : Type 0} {a : A} → none ≢ some a
none≢some e = cc

rune_size_bounds : (a : ℕ) (s : Bytes) → (1 ≤ rune_size (a ∷ s)) × (rune_size (a ∷ s) ≤ 4)
unfolding rune_size
rune_size_bounds a [] = ground arith
rune_size_bounds a (b ∷ []) = ground arith
rune_size_bounds a (b ∷ c ∷ []) = ground arith
rune_size_bounds a (b ∷ c ∷ d ∷ s) = ground arith

-- A character has at most four bytes.
rune_count_from-length :
    (fuel : ℕ) (s : Bytes) → length s ≤ fuel → length s ≤ 4 * rune_count_from fuel s
unfolding rune_count_from
rune_count_from-length fuel [] h = omega arith
rune_count_from-length zero (a ∷ s) h = absurd (omega arith)
rune_count_from-length (suc fuel) (a ∷ s) h =
    let size = rune_size_bounds a s in
    let left : length (drop (rune_size (a ∷ s)) (a ∷ s)) ≡ suc (length s) - rune_size (a ∷ s) =
      length-drop (rune_size (a ∷ s)) (a ∷ s) in
    let rest =
      rune_count_from-length fuel (drop (rune_size (a ∷ s)) (a ∷ s))
        (omega (arith, left, size.0)) in
    omega (arith, left, rest, size.0, size.1)

rune_count-length : (s : Bytes) → length s ≤ 4 * rune_count s
unfolding rune_count
rune_count-length s = rune_count_from-length (length s) s (omega arith)

length-slice :
    (start end : ℕ) (s : Bytes) → length (drop start (take end s)) ≡ min end (length s) - start
length-slice start end s = length-drop start (take end s) ∙ ap (λ n. n - start) (length-take end s)

rune_size_le : (s : Bytes) → rune_size s ≤ 4
unfolding rune_size
rune_size_le [] = omega arith
rune_size_le (a ∷ s) = (rune_size_bounds a s).1

abbrev goes_on : Bytes → ℕ → ℕ → ℕ → Bool
goes_on content start end limit =
    ltb end (length content) && ltb (rune_count (drop start (take end content))) limit

extend-length :
    (fuel : ℕ) (content : Bytes) (start end limit : ℕ)
    → length (drop start (take end content)) ≤ 4 * limit
    → length (drop start (take (extend fuel content start end limit) content)) ≤ 4 * limit
unfolding extend
extend-length zero content start end limit h = h
extend-length (suc fuel) content start end limit h =
    elim (Bool-cases (goes_on content start end limit)) [
      | inr stops ↦ rw stops h
      | inl more ↦
          let few : rune_count (drop start (take end content)) < limit = ground arith in
          let bytes = rune_count-length (drop start (take end content)) in
          let size = rune_size_le (drop end content) in
          let before = length-slice start end content in
          let after = length-slice start (end + rune_size (drop end content)) content in
          rw more (
            extend-length fuel content start (end + rune_size (drop end content)) limit
              (omega (arith, few, bytes, size, before, after)))
    ]

-- The length of the content is enough fuel: the loop has come to its end.
pub extend-stops :
    (fuel : ℕ) (content : Bytes) (start end limit : ℕ)
    → length content ≤ end + fuel
    → (ltb (extend fuel content start end limit) (length content)
        && ltb (rune_count (drop start (take (extend fuel content start end limit) content))) limit)
      ≡ false
unfolding extend
extend-stops zero content start end limit h =
    let past : ltb end (length content) ≡ false = ground arith in rw past refl
extend-stops (suc fuel) content start end limit h =
    elim (Bool-cases (goes_on content start end limit)) [
      | inr stops ↦ rw stops stops
      | inl more ↦
          let inside : end < length content = ground arith in
          let moves = rune_size_pos (drop end content) (omega (arith, length-drop end content)) in
          rw more (
            extend-stops fuel content start (end + rune_size (drop end content)) limit
              (omega (arith, moves)))
    ]
  where
    rune_size_pos : (s : Bytes) → 1 ≤ length s → 1 ≤ rune_size s
    rune_size_pos [] k = absurd (omega arith)
    rune_size_pos (a ∷ s) k = (rune_size_bounds a s).0

with_ellipses-length :
    (content : Bytes) (start end : ℕ)
    → length (with_ellipses content start end) ≤ length (drop start (take end content)) + 6
unfolding with_ellipses
with_ellipses-length content start end =
    let snippet = drop start (take end content) in
    let front = length-append snippet_ellipsis snippet in
    let both = length-append (snippet_ellipsis ++ snippet) snippet_ellipsis in
    let back = length-append snippet snippet_ellipsis in ground (arith, front, both, back)

-- A snippet has at most four bytes for each of the characters that its limit allows, and the two
-- ellipses.
pub truncate_snippet-length :
    (content : Bytes) (start limit : ℕ) {snippet : Bytes}
    → truncate_snippet content start limit ≡ some snippet
    → length snippet ≤ 4 * limit + 6
unfolding truncate_snippet cut_from
truncate_snippet-length content start limit {snippet} h = elim (Bool-cases (leb limit 0)) [
  | inl zero_limit ↦
      subst (λ s. length s ≤ 4 * limit + 6) (some-inj (rw zero_limit at h)) (omega arith)
  | inr positive ↦ elim (Option-cases (clamp_to_rune_boundary content start)) [
    | inl panicked ↦ absurd (none≢some (rw (positive, panicked) at h))
    | inr (from, clamped) ↦ elim (Bool-cases (leb (length content) from)) [
      | inl past ↦
          subst (λ s. length s ≤ 4 * limit + 6) (some-inj (rw (positive, clamped, past) at h))
            (omega arith)
      | inr inside ↦
          let end = extend (length content) content from from limit in
          let empty : length (drop from (take from content)) ≤ 4 * limit =
            omega (arith, length-slice from from content) in
          let bytes = extend-length (length content) content from from limit empty in
          let whole = with_ellipses-length content from end in
          subst (λ s. length s ≤ 4 * limit + 6) (some-inj (rw (positive, clamped, inside) at h))
            (omega (arith, bytes, whole))
    ]
  ]
]
