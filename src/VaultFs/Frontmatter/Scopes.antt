-- ===== src/VaultFs/Frontmatter/Scopes.antt =====
-- The scopes that a note declares carry no white space around them.
use canterbury.Base.{List, ◌≡◌, sym, ap, subst, ◌∙◌, Bytes, Bool-cases, inl, inr, Memᴰ}
use canterbury.Strings.Trim.{is_empty, trim_space}
use canterbury.Strings.Trim.Laws.{trim_space_idem}
use canterbury.Errors.{ok, ok-inj, err≢ok, wrapping, >>=-eq-ok, wrapping-eq-ok}
use canterbury.Domain.Vault.Access.{Scope, ResourceAccess, new_scope}
use canterbury.VaultFs.Filters.{normalize_set}
use canterbury.VaultFs.Filters.Sets.{normalize_set-Memᴰ}
use canterbury.VaultFs.Frontmatter.{
  NoteDocument, Yaml, split_frontmatter, parse_note_frontmatter, build_access, parse_properties,
  parse_note_document,
}
use canterbury.VaultFs.Frontmatter.Laws.{build_access-normalize_set}

pub new_scope-trim_space :
    (value : Bytes) {scope : Scope} → new_scope value ≡ ok scope → trim_space value ≡ scope
unfolding new_scope
new_scope-trim_space value h = elim (Bool-cases (is_empty (trim_space value))) [
  | inl blank ↦ absurd (err≢ok (rw blank at h))
  | inr text ↦ ok-inj (rw text at h)
]

build_access-trimmed :
    (scopes : List Bytes) {access : ResourceAccess} {scope : Scope}
    → build_access scopes ≡ ok access
    → Memᴰ scope access.scopes
    → trim_space scope ≡ scope
build_access-trimmed scopes {access} {scope} h m =
    let same : normalize_set scopes trim_space ≡ access.scopes =
      ap (λ (a : ResourceAccess). a.scopes)
        (ok-inj (sym (build_access-normalize_set scopes) ∙ h)) in
    let (_, value, _, e) =
      normalize_set-Memᴰ trim_space scopes (subst (λ ss. Memᴰ scope ss) (sym same) m) in
    ap trim_space (sym e) ∙ trim_space_idem value ∙ e

parse_properties-trimmed :
    (yaml : Yaml) (frontmatter body : Bytes) {document : NoteDocument} {scope : Scope}
    → parse_properties yaml frontmatter body ≡ ok document
    → Memᴰ scope document.access.scopes
    → trim_space scope ≡ scope
unfolding parse_properties
parse_properties-trimmed yaml frontmatter body {document} {scope} h m =
    let (parsed, _, rest) =
      >>=-eq-ok (wrapping "parse note frontmatter" (parse_note_frontmatter yaml frontmatter)) _ h in
    let (access, built, done) =
      >>=-eq-ok (wrapping "parse access policy" (build_access parsed.0.scopes)) _ rest in
    build_access-trimmed parsed.0.scopes (wrapping-eq-ok "parse access policy" _ built)
      (subst (λ (d : NoteDocument). Memᴰ scope d.access.scopes) (sym (ok-inj done)) m)

pub parse_note_document-trimmed :
    (yaml : Yaml) (content : Bytes) {document : NoteDocument} {scope : Scope}
    → parse_note_document yaml content ≡ ok document
    → Memᴰ scope document.access.scopes
    → trim_space scope ≡ scope
unfolding parse_note_document
parse_note_document-trimmed yaml content {document} {scope} h m =
    let (parts, _, rest) =
      >>=-eq-ok (wrapping "split frontmatter" (split_frontmatter content)) _ h in
    elim (Bool-cases parts.2) [
      | inl has ↦ parse_properties-trimmed yaml parts.0 parts.1 (rw has at rest) m
      | inr none_given ↦
          elim (subst (λ (d : NoteDocument). Memᴰ scope d.access.scopes)
            (sym (ok-inj (rw none_given at rest))) m) [ ]
    ]
