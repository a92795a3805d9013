-- ===== src/VaultFs/Filters/Paths.antt =====
-- The path filter and the whole query: which folders are searched.
use mathlib.Core.Bool.{false≢true}
use canterbury.Base.{
  true, List, [], ◌∷◌, ◌++◌, ◌≡◌, ◌≢◌, ◌↔◌, ◌⊎◌, inl, inr, refl, sym, ap, subst, ◌∙◌, arith, All,
  Memᴰ, Bytes, codes, Bool-cases, =s=_iff, ◌=s=◌,
}
use canterbury.Strings.Trim.{trim_space}
use canterbury.Strings.Affix.{
  has_prefix, contains, trim_suffix, has_prefix_append, has_prefix_split,
}
use canterbury.Strings.Case.{to_lower}
use canterbury.Domain.Vault.Note.{Note}
use canterbury.Domain.Vault.Search.{SearchNotesQuery, PathFilter}
use canterbury.VaultFs.Filters.{
  all_of, is_nil, normalize_set, normalize_string, normalize_strings, path_matches_prefix,
  matches_some_prefix, match_any_normalized_path_prefix, include_path_prefixes,
  exclude_path_prefixes, match_path, match_query, match_text, match_tags, match_access,
  normalize_tag_value,
}
use canterbury.VaultFs.Filters.Sets.{
  Covers, Touches, normalize_set-Memᴰ, Memᴰ-normalize_set, normalize_set-nil_iff,
}
use canterbury.VaultFs.Filters.Laws.{both_iff, match_text_iff, match_tags_iff, match_access_iff}

-- The path names the folder itself or something below it.
abbrev pub IsUnder : Bytes → Bytes → Type 0
IsUnder path folder = (path ≡ folder) ⊎ ((rest : Bytes) × (path ≡ (folder ++ codes "/") ++ rest))

module _ (lower_unicode : Bytes → Bytes) where
  path_matches_prefix_iff :
      (path prefix : Bytes)
      → (path_matches_prefix lower_unicode path prefix ≡ true)
        ↔ IsUnder path (trim_suffix prefix (codes "/"))
  unfolding path_matches_prefix
  path_matches_prefix_iff path prefix =
      let folder = trim_suffix prefix (codes "/") in
      (
        (λ h. elim (Bool-cases (path =s= folder)) [
          | inl same ↦ inl ((=s=_iff path folder).0 same)
          | inr other ↦ inr (has_prefix_split path (folder ++ codes "/") (rw other at h))
        ]),
        λ w. elim w [
          | inl same ↦ rw ((=s=_iff path folder).1 same) refl
          | inr (rest, e) ↦
              let below : has_prefix path (folder ++ codes "/") ≡ true =
                ap (λ p. has_prefix p (folder ++ codes "/")) e
                ∙ has_prefix_append (folder ++ codes "/") rest in
              ground arith
        ],
      )

  some_prefix :
      (path : Bytes) (prefixes : List Bytes)
      → matches_some_prefix lower_unicode path prefixes ≡ true
      → (prefix : Bytes) × Memᴰ prefix prefixes
        × (path_matches_prefix lower_unicode path prefix ≡ true)
  unfolding matches_some_prefix
  some_prefix path [] h = absurd (false≢true h)
  some_prefix path (p ∷ prefixes) h = elim (Bool-cases (path_matches_prefix lower_unicode path p)) [
    | inl found ↦ (p, Memᴰ.head refl, found)
    | inr lost ↦
        let (q, listed, k) = some_prefix path prefixes (rw lost at h) in (q, Memᴰ.tail listed, k)
  ]

  some_prefix_of :
      (path : Bytes) {prefix : Bytes} {prefixes : List Bytes}
      → Memᴰ prefix prefixes
      → path_matches_prefix lower_unicode path prefix ≡ true
      → matches_some_prefix lower_unicode path prefixes ≡ true
  unfolding matches_some_prefix
  some_prefix_of path (Memᴰ.head {x = q} e) h = rw (← e) (rw h)
  some_prefix_of path (Memᴰ.tail {x = q} m) h = ground (arith, some_prefix_of path m h)

  normalize_strings-normalize_set :
      (values : List Bytes)
      → normalize_strings lower_unicode values
        ≡ normalize_set values (normalize_string lower_unicode)
  unfolding normalize_strings normalize_set
  normalize_strings-normalize_set [] = refl
  normalize_strings-normalize_set (v ∷ values) = rw (normalize_strings-normalize_set values) refl

  -- One of the prefixes that are not blank is a folder that the note's path is under, where both
  -- are in lower case and the prefix loses the white space around it and one slash at its end.
  abbrev pub LiesUnder : List Bytes → Note → Type 0
  LiesUnder prefixes note =
      (prefix : Bytes) × Memᴰ prefix prefixes
      × (normalize_string lower_unicode prefix ≢ [])
      × IsUnder (to_lower lower_unicode note.ref.path)
          (trim_suffix (normalize_string lower_unicode prefix) (codes "/"))

  match_any_normalized_path_prefix_iff :
      (prefixes : List Bytes) (note : Note)
      → (match_any_normalized_path_prefix lower_unicode
            (normalize_strings lower_unicode prefixes)
            note
          ≡ true)
        ↔ LiesUnder prefixes note
  unfolding match_any_normalized_path_prefix
  match_any_normalized_path_prefix_iff prefixes note =
      rw (normalize_strings-normalize_set prefixes) (
        (λ h.
            let (p, listed, found) = some_prefix _ _ h in
            let (ne, v, m, e) =
              normalize_set-Memᴰ (normalize_string lower_unicode) prefixes listed in
            (
              v,
              m,
              (λ blank. ne (sym e ∙ blank)),
              (path_matches_prefix_iff _ _).0 (
                  subst
                    (λ q.
                      path_matches_prefix lower_unicode (to_lower lower_unicode note.ref.path) q
                      ≡ true)
                    (sym e) found),
            )),
        λ w.
            let (v, m, ne, under) = w in
            some_prefix_of _ (Memᴰ-normalize_set (normalize_string lower_unicode) prefixes m ne)
              ((path_matches_prefix_iff _ _).1 under),
      )

  no_prefixes_iff :
      (prefixes : List Bytes)
      → (is_nil (normalize_strings lower_unicode prefixes) ≡ true)
        ↔ All (λ prefix. normalize_string lower_unicode prefix ≡ []) prefixes
  no_prefixes_iff prefixes =
      rw (normalize_strings-normalize_set prefixes)
        (normalize_set-nil_iff (normalize_string lower_unicode) prefixes)

  include_iff :
      (prefixes : List Bytes) (note : Note)
      → (include_path_prefixes lower_unicode prefixes note ≡ true) ↔ (
          All (λ prefix. normalize_string lower_unicode prefix ≡ []) prefixes
          ⊎ LiesUnder prefixes note)
  unfolding include_path_prefixes
  include_iff prefixes note =
      elim (Bool-cases (is_nil (normalize_strings lower_unicode prefixes))) [
        | inl none_given ↦
            rw none_given ((λ h. inl ((no_prefixes_iff prefixes).0 none_given)), λ w. refl)
        | inr given ↦ rw given (
          (λ h. inr ((match_any_normalized_path_prefix_iff prefixes note).0 h)),
          λ w. elim w [
            | inl blank ↦ absurd (false≢true (sym given ∙ (no_prefixes_iff prefixes).1 blank))
            | inr under ↦ (match_any_normalized_path_prefix_iff prefixes note).1 under
          ],
        )
      ]

  exclude_iff :
      (prefixes : List Bytes) (note : Note)
      → (exclude_path_prefixes lower_unicode prefixes note ≡ true) ↔ (¬ (LiesUnder prefixes note))
  unfolding exclude_path_prefixes
  exclude_iff prefixes note =
      let test = match_any_normalized_path_prefix_iff prefixes note in
      (
        (λ h under. false≢true (rw (test.1 under) at h)),
        λ out.
            elim (Bool-cases (
              match_any_normalized_path_prefix lower_unicode
                (normalize_strings lower_unicode prefixes) note)) [
                  | inl found ↦ absurd (out (test.0 found))
                  | inr lost ↦ rw lost refl
                ],
      )

  -- A note passes the path filter exactly when it lies under one of the prefixes to include, unless
  -- these are all blank, and under none of those to exclude.
  pub match_path_iff :
      (filter : PathFilter) (note : Note)
      → (match_path lower_unicode filter note ≡ true) ↔ (
          (All (λ prefix. normalize_string lower_unicode prefix ≡ []) filter.include_prefixes
            ⊎ LiesUnder filter.include_prefixes note)
          × ¬ (LiesUnder filter.exclude_prefixes note))
  unfolding match_path
  match_path_iff filter note =
      both_iff _ _ note (include_iff filter.include_prefixes note)
        (exclude_iff filter.exclude_prefixes note)

  -- What a query asks of a note, filter by filter.
  pub record IsSelected (query : SearchNotesQuery) (note : Note) : Type 0 where
    pub text :
        All
          (λ term.
            (normalize_string lower_unicode term ≡ [])
            ⊎ (contains (to_lower lower_unicode note.content) (normalize_string lower_unicode term)
                ≡ true))
          query.text.terms
    pub included :
        All (λ prefix. normalize_string lower_unicode prefix ≡ []) query.path.include_prefixes
        ⊎ LiesUnder query.path.include_prefixes note
    pub not_excluded : ¬ (LiesUnder query.path.exclude_prefixes note)
    pub tags_all : Covers (normalize_tag_value lower_unicode) note.metadata.tags query.tags.all
    pub tags_any : Touches (normalize_tag_value lower_unicode) note.metadata.tags query.tags.any
    pub scopes_all : Covers trim_space note.metadata.access.scopes query.access.scopes_all
    pub scopes_any : Touches trim_space note.metadata.access.scopes query.access.scopes_any

  four_tests :
      (query : SearchNotesQuery) (note : Note)
      → (match_query lower_unicode query note ≡ true) ↔ (
          (match_text lower_unicode query.text note ≡ true)
          × (match_path lower_unicode query.path note ≡ true)
          × (match_tags lower_unicode query.tags note ≡ true)
          × (match_access query.access note ≡ true))
  unfolding match_query all_of
  four_tests query note = ground arith

  -- A query selects a note exactly when the content holds every term, the path lies under an
  -- included and under no excluded prefix, and the tags and the scopes contain all of the first
  -- and one of the second list of their filter; blank values of a filter ask for nothing, and
  -- texts are compared as the filter normalizes them.
  pub match_query_iff :
      (query : SearchNotesQuery) (note : Note)
      → (match_query lower_unicode query note ≡ true) ↔ IsSelected query note
  match_query_iff query note =
      let tests = four_tests query note in
      let text = match_text_iff lower_unicode query.text note in
      let path = match_path_iff query.path note in
      let tags = match_tags_iff lower_unicode query.tags note in
      let access = match_access_iff query.access note in
      (
        (λ h.
            let (a, b, c, d) = tests.0 h in
            record {
              text = text.0 a;
              included = (path.0 b).0;
              not_excluded = (path.0 b).1;
              tags_all = (tags.0 c).0;
              tags_any = (tags.0 c).1;
              scopes_all = (access.0 d).0;
              scopes_any = (access.0 d).1;
            }),
        λ s. tests.1 (
          text.1 s.text,
          path.1 (s.included, s.not_excluded),
          tags.1 (s.tags_all, s.tags_any),
          access.1 (s.scopes_all, s.scopes_any),
        ),
      )
