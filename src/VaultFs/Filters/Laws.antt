-- ===== src/VaultFs/Filters/Laws.antt =====
-- The notes that a query selects.
use mathlib.Core.Bool.{false≢true}
use canterbury.Base.{
  true, List, [], ◌∷◌, ◌≡◌, ◌↔◌, ◌⊎◌, inl, inr, refl, sym, ◌∙◌, arith, All, Bytes, Bool-cases,
  if◌then◌else◌,
}
use canterbury.Strings.Trim.{trim_space}
use canterbury.Strings.Affix.{contains}
use canterbury.Strings.Case.{to_lower}
use canterbury.Domain.Vault.Note.{Note}
use canterbury.Domain.Vault.Search.{AccessFilter, TagFilter, TextSearch}
use canterbury.VaultFs.Filters.{
  Matcher, all_of, is_nil, normalize_set, contains_all, contains_any, normalize_scope_value,
  contains_all_scopes, contains_some_scopes, match_access, normalize_string, normalize_strings,
  normalize_tag_value, contains_all_tags, contains_some_tags, match_tags, contains_terms,
  match_text,
}
use canterbury.VaultFs.Filters.Sets.{
  Covers, Touches, contains_all_iff, contains_any_iff, normalize_set-nil_iff, empty_iff,
}

all_of-two_iff :
    (m n : Matcher) (note : Note)
    → (all_of (m ∷ n ∷ []) note ≡ true) ↔ ((m note ≡ true) × (n note ≡ true))
unfolding all_of
all_of-two_iff m n note = ground arith

pub both_iff :
    {P Q : Type 0} (m n : Matcher) (note : Note)
    → (m note ≡ true) ↔ P
    → (n note ≡ true) ↔ Q
    → (all_of (m ∷ n ∷ []) note ≡ true) ↔ (P × Q)
both_iff m n note p q =
    let both = all_of-two_iff m n note in
    ((λ h. (p.0 (both.0 h).0, q.0 (both.0 h).1)), λ w. both.1 (p.1 w.0, q.1 w.1))

Covers-blank :
    (normalize : Bytes → Bytes) (values candidates : List Bytes)
    → All (λ value. normalize value ≡ []) values
    → Covers normalize candidates values
Covers-blank normalize [] candidates h = tt
Covers-blank normalize (v ∷ values) candidates (e, h) =
    (inl e, Covers-blank normalize values candidates h)

module _ (normalize : Bytes → Bytes) (values candidates : List Bytes) where
  contains_all-test_iff :
      ((if is_nil (normalize_set values normalize)
          then true
          else contains_all (normalize_set values normalize) (normalize_set candidates normalize))
        ≡ true)
      ↔ Covers normalize candidates values
  contains_all-test_iff = elim (Bool-cases (is_nil (normalize_set values normalize))) [
    | inl none_given ↦ rw none_given (
      (λ h.
          Covers-blank normalize values candidates
            ((normalize_set-nil_iff normalize values).0 none_given)),
      λ w. refl,
    )
    | inr given ↦ rw given (contains_all_iff normalize values candidates)
  ]

  contains_any-test_iff :
      ((if is_nil (normalize_set values normalize)
          then true
          else contains_any (normalize_set values normalize) (normalize_set candidates normalize))
        ≡ true)
      ↔ Touches normalize candidates values
  contains_any-test_iff =
      let blank = normalize_set-nil_iff normalize values in
      let one = contains_any_iff normalize values candidates in
      elim (Bool-cases (is_nil (normalize_set values normalize))) [
        | inl none_given ↦ rw none_given ((λ h. inl (blank.0 none_given)), λ w. refl)
        | inr given ↦ rw given (
          (λ h. inr (one.0 h)),
          λ w. elim w [
            | inl all_blank ↦ absurd (false≢true (sym given ∙ blank.1 all_blank))
            | inr c ↦ one.1 c
          ],
        )
      ]

-- A note passes the access filter exactly when it declares every scope of the first list that is
-- not blank and, unless those of the second list are all blank, one of these; scopes are compared
-- without the white space around them.
pub match_access_iff :
    (filter : AccessFilter) (note : Note)
    → (match_access filter note ≡ true) ↔ (
        Covers trim_space note.metadata.access.scopes filter.scopes_all
        × Touches trim_space note.metadata.access.scopes filter.scopes_any)
unfolding match_access contains_all_scopes contains_some_scopes normalize_scope_value
match_access_iff filter note =
    both_iff _ _ note
      (contains_all-test_iff trim_space filter.scopes_all note.metadata.access.scopes)
      (contains_any-test_iff trim_space filter.scopes_any note.metadata.access.scopes)

terms_test :
    (lower_unicode : Bytes → Bytes) (content : Bytes) (terms : List Bytes)
    → (if is_nil terms then true else contains_terms lower_unicode content terms)
      ≡ contains_terms lower_unicode content terms
unfolding contains_terms
terms_test lower_unicode content [] = refl
terms_test lower_unicode content (term ∷ terms) = refl

module _ (lower_unicode : Bytes → Bytes) where
  -- A note passes the tag filter exactly when it has every tag of the first list that is not blank
  -- and, unless those of the second list are all blank, one of these; tags are compared in lower
  -- case, without the white space around them and without one leading `#`.
  pub match_tags_iff :
      (filter : TagFilter) (note : Note)
      → (match_tags lower_unicode filter note ≡ true) ↔ (
          Covers (normalize_tag_value lower_unicode) note.metadata.tags filter.all
          × Touches (normalize_tag_value lower_unicode) note.metadata.tags filter.any)
  unfolding match_tags contains_all_tags contains_some_tags
  match_tags_iff filter note =
      both_iff _ _ note
        (contains_all-test_iff (normalize_tag_value lower_unicode) filter.all note.metadata.tags)
        (contains_any-test_iff (normalize_tag_value lower_unicode) filter.any note.metadata.tags)

  contains_terms_iff :
      (content : Bytes) (terms : List Bytes)
      → (contains_terms lower_unicode content (normalize_strings lower_unicode terms) ≡ true)
        ↔ All
            (λ term.
              (normalize_string lower_unicode term ≡ [])
              ⊎ (contains content (normalize_string lower_unicode term) ≡ true))
            terms
  unfolding contains_terms normalize_strings
  contains_terms_iff content [] = ((λ h. tt), λ w. refl)
  contains_terms_iff content (term ∷ terms) =
      ground
        (arith, contains_terms_iff content terms, empty_iff (normalize_string lower_unicode term))

  -- A note passes the text filter exactly when its content holds every term that is not blank,
  -- where terms lose the white space around them and both are in lower case.
  pub match_text_iff :
      (search : TextSearch) (note : Note)
      → (match_text lower_unicode search note ≡ true)
        ↔ All
            (λ term.
              (normalize_string lower_unicode term ≡ [])
              ⊎ (contains
                    (to_lower lower_unicode note.content)
                    (normalize_string lower_unicode term)
                  ≡ true))
            search.terms
  unfolding match_text
  match_text_iff search note =
      rw
        (terms_test lower_unicode (to_lower lower_unicode note.content)
          (normalize_strings lower_unicode search.terms))
        (contains_terms_iff (to_lower lower_unicode note.content) search.terms)
