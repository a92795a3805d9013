-- ===== src/VaultFs/Released.antt =====
-- The vault service over the file repository: internal/app/vault with internal/adapters/vaultfs,
-- composed as cmd/vault-service does.
use canterbury.Base.{
  ℕ, true, some, List, [], ◌∷◌, ◌≡◌, ◌≢◌, sym, ap, subst, ◌∙◌, Bytes, codes, All, All-Memᴰ, Memᴰ,
  inl, inr, some-inj, List-cases,
}
use canterbury.Strings.Trim.{trim_space}
use canterbury.Strings.Affix.{has_prefix}
use canterbury.Errors.{ok}
use canterbury.Time.{Time}
use canterbury.Context.{Context, Principal, principal_from_context}
use canterbury.Domain.Vault.Access.{Scope, new_scope}
use canterbury.Domain.Vault.Access.Laws.{new_scope-normal}
use canterbury.Domain.Vault.Note.{Note, NoteRef, NoteMetadata}
use canterbury.Domain.Vault.Search.{SearchNotesQuery, SearchNoteResult, SearchNotesPage}
use canterbury.Service.Exec
use canterbury.Service.Exec.{Service, AuditLogger, World}
use canterbury.Service.Sanitize.{sanitize_frontmatter}
use canterbury.Service.Search.{search_notes, restrict, sanitize_page, sanitize_results}
use canterbury.Service.Search.Released.{search_notes-ok}
use canterbury.VaultFs.Filters.Sets.{Touches}
use canterbury.VaultFs.Filters.Paths.{match_query_iff}
use canterbury.VaultFs.Paths.{Files}
use canterbury.VaultFs.Frontmatter.{Yaml}
use canterbury.VaultFs.Frontmatter.Scopes.{new_scope-trim_space, parse_note_document-trimmed}
use canterbury.VaultFs.Read.{Repository, read_note, note_of}
use canterbury.VaultFs.Read.Laws.{read_note-IsRead}
use canterbury.VaultFs.Search as FileSearch
use canterbury.VaultFs.Search.{Entries}
use canterbury.VaultFs.Search.Laws.{IsFound, search_notes-IsFound}

module _ (lower_unicode : Bytes → Bytes) (files : Files) (yaml : Yaml) (r : Repository)
    (entries : Entries) where
  -- The interface of the service, filled by the repository.
  unfoldable pub file_repository : Exec.Repository
  file_repository = record {
    read_note = λ ctx path. read_note files yaml r ctx path;
    search_notes =
        λ ctx query. FileSearch.search_notes lower_unicode files yaml r ctx query entries;
  }

  unfoldable pub file_service : AuditLogger → (ℕ → Time) → Service
  file_service audit_log clock = record {
    repository = file_repository;
    audit_log = audit_log;
    clock = clock;
  }

-- A scope that both lists hold.
abbrev pub ShareScope : List Scope → List Scope → Type 0
ShareScope held declared = (scope : Scope) × Memᴰ scope held × Memᴰ scope declared

-- Where neither list has white space around its scopes, a counterpart is the scope itself.
Touches-ShareScope :
    (held declared : List Scope)
    → held ≢ []
    → All (λ scope. new_scope scope ≡ ok scope) held
    → ((scope : Scope) → Memᴰ scope declared → trim_space scope ≡ scope)
    → Touches trim_space declared held
    → ShareScope held declared
Touches-ShareScope held declared ne normal trimmed (inl blank) = elim (List-cases held) [
  | inl none_held ↦ absurd (ne none_held)
  | inr (scope, more, e) ↦
      let first : new_scope scope ≡ ok scope = (subst (All (λ s. new_scope s ≡ ok s)) e normal).0 in
      absurd (
        (new_scope-normal scope first).0 (
          sym (new_scope-trim_space scope first)
          ∙ (subst (All (λ s. trim_space s ≡ [])) e blank).0))
]
Touches-ShareScope held declared ne normal trimmed
      (inr (value, listed, filled, (candidate, m, e))) =
    let value_trimmed =
      new_scope-trim_space value (All-Memᴰ (λ s. new_scope s ≡ ok s) held normal listed) in
    let same : candidate ≡ value = sym (trimmed candidate m) ∙ e ∙ value_trimmed in
    (value, listed, subst (λ s. Memᴰ s declared) same m)

module _ (files : Files) (yaml : Yaml) (r : Repository) (ctx : Context) where
  -- The note of the directory at the path of a result declares a scope that is held.
  pub record IsShared (held : List Scope) (result : SearchNoteResult) : Type 0 where
    pub note : Note
    pub read : read_note files yaml r ctx result.ref.path ≡ ok note
    pub shared : ShareScope held note.metadata.access.scopes
    pub access : result.metadata.access ≡ note.metadata.access

  sanitize_results-All :
      (lower_unicode : Bytes → Bytes) (held : List Scope) (results : List SearchNoteResult)
      → All (IsShared held) results
      → All (IsShared held) (sanitize_results lower_unicode results)
  unfolding sanitize_results sanitize_frontmatter
  sanitize_results-All lower_unicode held [] h = tt
  sanitize_results-All lower_unicode held (result ∷ results) (s, h) = (
    record { note = s.note; read = s.read; shared = s.shared; access = s.access },
    sanitize_results-All lower_unicode held results h,
  )

module _ (sha256 lower_unicode : Bytes → Bytes) (files : Files) (yaml : Yaml) (r : Repository)
    (entries : Entries) (audit_log : AuditLogger) (clock : ℕ → Time) (ctx : Context) where
  found-IsShared :
      (query : SearchNotesQuery) (p : Principal) (result : SearchNoteResult)
      → has_prefix r.root (codes "/") ≡ true
      → p.scopes ≢ []
      → All (λ scope. new_scope scope ≡ ok scope) p.scopes
      → IsFound lower_unicode files yaml r ctx (restrict p query) result
      → IsShared files yaml r ctx p.scopes result
  unfolding restrict note_of
  found-IsShared query p result absolute granted normal found =
      let read = read_note-IsRead files yaml r ctx found.path absolute found.read in
      let selected =
        (match_query_iff lower_unicode (restrict p query) found.note).0 found.selected in
      let declared : found.note.metadata.access ≡ read.document.access =
        ap (λ (n : Note). n.metadata.access) read.same in
      let path : result.ref.path ≡ found.path =
        ap (λ (k : NoteRef). k.path) found.ref ∙ ap (λ (n : Note). n.ref.path) read.same in
      record {
        note = found.note;
        read = ap (λ k. read_note files yaml r ctx k) path ∙ found.read;
        shared =
            Touches-ShareScope p.scopes found.note.metadata.access.scopes granted normal
              (λ scope m.
                parse_note_document-trimmed yaml read.content read.parsed
                  (subst (λ a. Memᴰ scope a.scopes) declared m))
              selected.scopes_any;
        access = ap (λ (m : NoteMetadata). m.access) found.metadata;
      }

  all_found :
      (query : SearchNotesQuery) (p : Principal) (results : List SearchNoteResult)
      → has_prefix r.root (codes "/") ≡ true
      → p.scopes ≢ []
      → All (λ scope. new_scope scope ≡ ok scope) p.scopes
      → All (IsFound lower_unicode files yaml r ctx (restrict p query)) results
      → All (IsShared files yaml r ctx p.scopes) results
  all_found query p [] absolute granted normal h = tt
  all_found query p (result ∷ results) absolute granted normal (found, h) = (
    found-IsShared query p result absolute granted normal found,
    all_found query p results absolute granted normal h,
  )

  -- No search returns a note that its caller may not read: each result that the service releases
  -- has the path of a note of the directory that declares one of the scopes of the principal,
  -- whatever access filter the caller sent, where the root is absolute and the scopes of the
  -- principal are ones that the domain accepts as they are.
  pub search_notes-IsShared :
      (query : SearchNotesQuery) (p : Principal) (w : World) {seen : SearchNotesPage} {w' : World}
      → has_prefix r.root (codes "/") ≡ true
      → principal_from_context ctx ≡ some p
      → All (λ scope. new_scope scope ≡ ok scope) p.scopes
      → search_notes sha256 lower_unicode
          (file_service lower_unicode files yaml r entries audit_log clock)
          ctx
          query
          w
        ≡ (ok seen, w')
      → All (IsShared files yaml r ctx p.scopes) seen.results
  unfolding file_service file_repository sanitize_page restrict
  search_notes-IsShared query p w {seen} absolute named normal h =
      let (q, page, named', granted, found, same, _) =
        search_notes-ok sha256 lower_unicode
          (file_service lower_unicode files yaml r entries audit_log clock) ctx query w h in
      let q_is_p : q ≡ p = some-inj (sym named' ∙ named) in
      let results =
        all_found query q page.results absolute granted
          (subst (λ (k : Principal). All (λ scope. new_scope scope ≡ ok scope) k.scopes)
            (sym q_is_p) normal)
          (search_notes-IsFound lower_unicode files yaml r ctx (restrict q query) entries found) in
      subst (λ (k : Principal). All (IsShared files yaml r ctx k.scopes) seen.results) q_is_p
        (subst (λ (s : SearchNotesPage). All (IsShared files yaml r ctx q.scopes) s.results)
          (sym same)
          (sanitize_results-All files yaml r ctx lower_unicode q.scopes page.results results))
