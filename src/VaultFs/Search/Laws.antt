-- ===== src/VaultFs/Search/Laws.antt =====
-- Where the results of a search come from.
use mathlib.Core.List.{Permᴰ}
use canterbury.Base.{
  ℕ, zero, suc, ◌+◌, true, Option-cases, Bool-cases, inl, inr, List, [], ◌∷◌, ◌≡◌, refl, sym, subst,
  Bytes, All, All-append, length, take, drop, ltb, leb, if◌then◌else◌,
}
use canterbury.Errors.{
  Result, ok, err, err≢ok, ok-inj, unless-eq-ok, wrapping, wrapping-eq-ok, >>=-eq-ok,
}
use canterbury.Context.{Context}
use canterbury.Domain.Vault.Note.{Note, NotePath}
use canterbury.Domain.Vault.NotePath.{new_note_path}
use canterbury.Domain.Vault.Search.{
  SearchNotesQuery, SearchNoteResult, SearchNotesPage, normalized_limit,
}
use canterbury.VaultFs.Filters.{match_query}
use canterbury.VaultFs.Pagination.{page_at, paginate_from_query, parse_cursor}
use canterbury.VaultFs.Sort.{sort_by_query}
use canterbury.VaultFs.Sort.Laws.{sort_by_query-IsInOrder}
use canterbury.VaultFs.Snippet.{build_snippet}
use canterbury.VaultFs.Paths.{Files}
use canterbury.VaultFs.Frontmatter.{Yaml}
use canterbury.VaultFs.Read.{Repository, read_note}
use canterbury.VaultFs.Search.{
  Entry, Entries, with_snippet, collect, collect_at, should_skip_file, should_skip_dir, visit_file,
  walk, walk_all, search_notes,
}

module _ {ℓ κ} {A : Type ℓ} (P : A → Type κ) where
  All-Permᴰ : {xs ys : List A} → Permᴰ xs ys → All P ys → All P xs
  All-Permᴰ Permᴰ.nil h = tt
  All-Permᴰ (Permᴰ.cons e p) (a, h) = (subst P (sym e) a, All-Permᴰ p h)
  All-Permᴰ (Permᴰ.swap e f) (a, (b, h)) = (subst P (sym e) b, (subst P (sym f) a, h))
  All-Permᴰ (Permᴰ.trans p q) h = All-Permᴰ p (All-Permᴰ q h)

  All-take : (n : ℕ) (xs : List A) → All P xs → All P (take n xs)
  All-take zero xs h = tt
  All-take (suc n) [] h = tt
  All-take (suc n) (x ∷ xs) (a, h) = (a, All-take n xs h)

  All-drop : (n : ℕ) (xs : List A) → All P xs → All P (drop n xs)
  All-drop zero xs h = h
  All-drop (suc n) [] h = tt
  All-drop (suc n) (x ∷ xs) (a, h) = All-drop n xs h

page_at-All {κ} :
    (P : SearchNoteResult → Type κ) (offset limit : ℕ) (results : List SearchNoteResult)
    → All P results
    → All P (page_at offset limit results).results
unfolding page_at
page_at-All P offset limit results h = elim (Bool-cases (leb (length results) offset)) [
  | inl past ↦ rw past tt
  | inr inside ↦ rw inside (
      All-drop P offset _ (
        All-take P
          (if ltb (length results) (offset + limit) then length results else offset + limit) results
          h))
]

paginate_from_query-All {κ} :
    (P : SearchNoteResult → Type κ) (query : SearchNotesQuery)
    {paginate : List SearchNoteResult → SearchNotesPage}
    → paginate_from_query query ≡ ok paginate
    → (results : List SearchNoteResult) → All P results
    → All P (paginate results).results
unfolding paginate_from_query
paginate_from_query-All P query h results all_found =
    let (offset, _, same) =
      >>=-eq-ok (wrapping "paginate from query" (parse_cursor query.cursor)) _ h in
    subst (λ (f : List SearchNoteResult → SearchNotesPage). All P (f results).results) (ok-inj same)
      (page_at-All P offset (normalized_limit query) results all_found)

module _ (lower_unicode : Bytes → Bytes) (files : Files) (yaml : Yaml) (r : Repository)
    (ctx : Context) (query : SearchNotesQuery) where
  -- A note that can be read and that the query selects.
  pub record IsFound (result : SearchNoteResult) : Type 0 where
    pub path : NotePath
    pub note : Note
    pub read : read_note files yaml r ctx path ≡ ok note
    pub selected : match_query lower_unicode query note ≡ true
    pub ref : result.ref ≡ note.ref
    pub metadata : result.metadata ≡ note.metadata

  collect-All :
      (path : NotePath) (note : Note) {results : List SearchNoteResult}
      → read_note files yaml r ctx path ≡ ok note
      → collect lower_unicode files yaml r ctx query note ≡ ok results
      → All IsFound results
  unfolding collect with_snippet
  collect-All path note {results} read h =
      elim (Bool-cases (match_query lower_unicode query note)) [
        | inr unselected ↦ subst (All IsFound) (ok-inj (rw unselected at h)) tt
        | inl selected ↦ elim (Option-cases (build_snippet lower_unicode note query.text)) [
          | inl panicked ↦ absurd (err≢ok (rw (selected, panicked) at h))
          | inr (snippet, built) ↦ subst (All IsFound) (ok-inj (rw (selected, built) at h)) (
            record {
              path = path;
              note = note;
              read = read;
              selected = selected;
              ref = refl;
              metadata = refl;
            },
            tt,
          )
        ]
      ]

  collect_at-All :
      (path : Result NotePath) {results : List SearchNoteResult}
      → collect_at lower_unicode files yaml r ctx query path ≡ ok results
      → All IsFound results
  unfolding collect_at
  collect_at-All (err e) h = subst (All IsFound) (ok-inj h) tt
  collect_at-All (ok path) h =
      let (note, read, rest) =
        >>=-eq-ok (wrapping "search notes" (read_note files yaml r ctx path)) _ h in
      collect-All path note (wrapping-eq-ok "search notes" _ read) rest

  visit_file-All :
      (relative_path name : Bytes) {results : List SearchNoteResult}
      → visit_file lower_unicode files yaml r ctx query relative_path name ≡ ok results
      → All IsFound results
  unfolding visit_file
  visit_file-All relative_path name h =
      let h' = unless-eq-ok ctx.cancelled _ h in
      elim (Bool-cases (should_skip_file lower_unicode name)) [
        | inl skipped ↦ subst (All IsFound) (ok-inj (rw skipped at h')) tt
        | inr visited ↦
            collect_at-All (new_note_path lower_unicode relative_path) (rw visited at h')
      ]

  mutual
    unfolding walk walk_all

    walk-All :
        (prefix : Bytes) (e : Entry) {results : List SearchNoteResult}
        → walk lower_unicode files yaml r ctx query prefix e ≡ ok results
        → All IsFound results
    walk-All prefix (Entry.unreadable e) h = absurd (err≢ok h)
    walk-All prefix (Entry.file name) h = visit_file-All _ name h
    walk-All prefix (Entry.directory name entries) h =
        let h' = unless-eq-ok ctx.cancelled _ h in
        elim (Bool-cases (should_skip_dir name)) [
          | inl skipped ↦ subst (All IsFound) (ok-inj (rw skipped at h')) tt
          | inr entered ↦ walk_all-All _ entries (rw entered at h')
        ]

    walk_all-All :
        (prefix : Bytes) (es : Entries) {results : List SearchNoteResult}
        → walk_all lower_unicode files yaml r ctx query prefix es ≡ ok results
        → All IsFound results
    walk_all-All prefix Entries.end h = subst (All IsFound) (ok-inj h) tt
    walk_all-All prefix (Entries.entry e es) h =
        let (found, first, h') =
          >>=-eq-ok (walk lower_unicode files yaml r ctx query prefix e) _ h in
        let (more, rest, same) =
          >>=-eq-ok (walk_all lower_unicode files yaml r ctx query prefix es) _ h' in
        subst (All IsFound) (ok-inj same)
          (All-append IsFound found more (walk-All prefix e first) (walk_all-All prefix es rest))

  -- Every result of a search is a note that the repository reads and that the query selects, with
  -- the reference and the metadata of this note.
  pub search_notes-IsFound :
      (entries : Entries) {page : SearchNotesPage}
      → search_notes lower_unicode files yaml r ctx query entries ≡ ok page
      → All IsFound page.results
  unfolding search_notes
  search_notes-IsFound entries {page} h =
      let (sort, sorts, h1) =
        >>=-eq-ok (wrapping "prepare search sort" (sort_by_query query)) _
          (unless-eq-ok ctx.cancelled _ h) in
      let (paginate, pages, h2) =
        >>=-eq-ok (wrapping "prepare search pagination" (paginate_from_query query)) _ h1 in
      let (results, walked, h3) =
        >>=-eq-ok
          (wrapping "scanning notes" (walk_all lower_unicode files yaml r ctx query [] entries)) _
          h2 in
      let found = walk_all-All [] entries (wrapping-eq-ok "scanning notes" _ walked) in
      let (perm, _) =
        sort_by_query-IsInOrder query results (wrapping-eq-ok "prepare search sort" _ sorts) in
      subst (λ (p : SearchNotesPage). All IsFound p.results) (ok-inj h3)
        (paginate_from_query-All IsFound query (wrapping-eq-ok "prepare search pagination" _ pages)
          (sort results) (All-Permᴰ IsFound perm found))
