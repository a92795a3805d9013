-- ===== src/VaultFs/Snippet/Total.antt =====
-- When a snippet is built without an index out of range.
use canterbury.Base.{
  ℕ, zero, suc, ◌-◌, ◌/◌, ◌≤◌, ◌<◌, true, false, inl, inr, Option, none, some, Option-cases,
  Bool-cases, List, [], ◌∷◌, ◌≡◌, refl, arith, Bytes, length, leb, ltb,
}
use canterbury.Strings.Trim.{is_empty}
use canterbury.Strings.Affix.{index, has_prefix}
use canterbury.Strings.Case.{to_lower}
use canterbury.Strings.Utf8.{rune_start}
use canterbury.Domain.Vault.Note.{Note}
use canterbury.Domain.Vault.Search.{TextSearch}
use canterbury.VaultFs.Filters.{normalize_strings}
use canterbury.VaultFs.Snippet.{
  default_snippet_length, normalize_snippet_text, earlier, first_index, byte_at,
  previous_rune_boundary, clamp_to_rune_boundary, snippet_start, extend, with_ellipses, cut_from,
  truncate_snippet, first_term_index, start_of, truncated, build_snippet,
}

abbrev IsSome : {A : Type 0} → Option A → Type 0
IsSome {A} o = (a : A) × (o ≡ some a)

-- An index that was found lies within the text.
abbrev Within : ℕ → Option ℕ → Type 0
Within n none = Unit
Within n (some i) = i ≤ n

index-Within : (s p : Bytes) → Within (length s) (index s p)
unfolding index
index-Within [] p = elim (Bool-cases (has_prefix [] p)) [
  | inl here ↦ rw here (omega arith)
  | inr absent ↦ rw absent tt
]
index-Within (a ∷ s) p =
    let rest = index-Within s p in
    elim (Bool-cases (has_prefix (a ∷ s) p)) [
      | inl here ↦ rw here (omega arith)
      | inr absent ↦ elim (Option-cases (index s p)) [
        | inl lost ↦ rw absent (rw lost tt)
        | inr (i, found) ↦
            let below : i ≤ length s = rw found at rest in
            rw absent (rw found (omega (arith, below)))
      ]
    ]

earlier-Within : (n : ℕ) (a b : Option ℕ) → Within n a → Within n b → Within n (earlier a b)
earlier-Within n a none h k = h
earlier-Within n none (some j) h k = k
earlier-Within n (some i) (some j) h k = elim (Bool-cases (ltb j i)) [
  | inl before ↦ rw before k
  | inr after ↦ rw after h
]

first_index-Within :
    (content : Bytes) (terms : List Bytes) (first : Option ℕ)
    → Within (length content) first
    → Within (length content) (first_index content terms first)
unfolding first_index
first_index-Within content [] first h = h
first_index-Within content (term ∷ terms) first h =
    first_index-Within content terms (earlier first (index content term))
      (earlier-Within (length content) first (index content term) h (index-Within content term))

byte_at-IsSome : (s : Bytes) (i : ℕ) → i < length s → IsSome (byte_at s i)
byte_at-IsSome [] i h = absurd (omega arith)
byte_at-IsSome (c ∷ s) zero h = (c, refl)
byte_at-IsSome (c ∷ s) (suc i) h = byte_at-IsSome s i (omega arith)

previous_rune_boundary-IsSome :
    (content : Bytes) (i : ℕ) → i < length content → IsSome (previous_rune_boundary content i)
unfolding previous_rune_boundary
previous_rune_boundary-IsSome content zero h = (0, refl)
previous_rune_boundary-IsSome content (suc i) h =
    let (c, found) = byte_at-IsSome content (suc i) h in
    elim (Bool-cases (rune_start c)) [
      | inl starts ↦ (suc i, rw (found, previous_rune_boundary) (rw starts refl))
      | inr inner ↦
          let (j, e) = previous_rune_boundary-IsSome content i (omega arith) in
          (j, rw (found, previous_rune_boundary) (rw inner e))
    ]

truncate_snippet-IsSome :
    (content : Bytes) (start limit : ℕ) → IsSome (truncate_snippet content start limit)
unfolding truncate_snippet clamp_to_rune_boundary cut_from
truncate_snippet-IsSome content start limit = elim (Bool-cases (leb limit 0)) [
  | inl zero_limit ↦ ([], rw zero_limit refl)
  | inr positive ↦ elim (Bool-cases (leb (length content) start)) [
    | inl past ↦
        let reached : leb (length content) (length content) ≡ true = ground arith in
        ([], rw positive (rw past (rw reached refl)))
    | inr inside ↦
        let (from, e) = previous_rune_boundary-IsSome content start (ground arith) in
        elim (Bool-cases (leb (length content) from)) [
          | inl past ↦ ([], rw positive (rw inside (rw e (rw past refl))))
          | inr within ↦ (
            with_ellipses content from (extend (length content) content from from limit),
            rw positive (rw inside (rw e (rw within refl))),
          )
        ]
  ]
]

start_of-IsSome :
    (lower_unicode : Bytes → Bytes) (content : Bytes) (i : Option ℕ)
    → 1 ≤ length content
    → Within (length content) i
    → IsSome (start_of lower_unicode content i)
unfolding start_of snippet_start
start_of-IsSome lower_unicode content none filled h = (0, refl)
start_of-IsSome lower_unicode content (some i) filled h =
    elim (Bool-cases (leb i (default_snippet_length / 2))) [
      | inl near ↦ (0, rw near refl)
      | inr far ↦
          let (j, e) =
            previous_rune_boundary-IsSome content (i - default_snippet_length / 2) (ground arith) in
          (j, rw far e)
    ]

truncated-IsSome :
    (lower_unicode : Bytes → Bytes) (content : Bytes) (start : Option ℕ)
    → IsSome start
    → IsSome (truncated lower_unicode content start)
unfolding truncated
truncated-IsSome lower_unicode content none h = absurd (cc h.1)
truncated-IsSome lower_unicode content (some start) h =
    truncate_snippet-IsSome content start default_snippet_length

-- A snippet is built whenever the text of the note is not longer in lower case than it is.
pub build_snippet-total :
    (lower_unicode : Bytes → Bytes) (note : Note) (search : TextSearch)
    → length (to_lower lower_unicode (normalize_snippet_text note.content))
      ≤ length (normalize_snippet_text note.content)
    → (snippet : Bytes) × (build_snippet lower_unicode note search ≡ some snippet)
unfolding build_snippet first_term_index
build_snippet-total lower_unicode note search shorter =
    let content = normalize_snippet_text note.content in
    let lower = to_lower lower_unicode content in
    let found = first_index-Within lower (normalize_strings lower_unicode search.terms) none tt in
    elim (Bool-cases (is_empty content)) [
      | inl blank ↦ ([], rw blank refl)
      | inr text ↦ rw text (
          truncated-IsSome lower_unicode content _ (
            start_of-IsSome lower_unicode content
              (first_index lower (normalize_strings lower_unicode search.terms) none)
              (filled content text) (weaken (length lower) (length content) _ shorter found)))
    ]
  where
    filled : (s : Bytes) → is_empty s ≡ false → 1 ≤ length s
    filled [] e = absurd (cc e)
    filled (c ∷ s) e = omega arith

    weaken : (m n : ℕ) (o : Option ℕ) → m ≤ n → Within m o → Within n o
    weaken m n none le h = tt
    weaken m n (some i) le h = omega arith
