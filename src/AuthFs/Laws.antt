-- ===== src/AuthFs/Laws.antt =====
-- Which documents internal/adapters/authfs loads, and what a mapper of such a document grants.
use canterbury.Base.{
  none, List, [], ◌∷◌, ◌++◌, Bytes, codes, ◌≡◌, refl, sym, subst, All, Option-cases, inl, inr, ◌↔◌,
}
use canterbury.Errors.{Result, ok, wrapping, wrapping-eq-ok, >>=-eq-ok, ok-inj, err≢ok}
use canterbury.Context.{Context}
use canterbury.Domain.Vault.Access.{Scope, new_scope}
use canterbury.Domain.Vault.Access.Laws.{new_scope-normal}
use canterbury.Auth.Hash.{hex}
use canterbury.Auth.ScopeMapper.{MappingSubject, MappingDocument}
use canterbury.AuthFs.{
  Loader, SubjectEntry, MappingFile, Toml, to_scopes, to_subjects, compute_checksum, mapping_of,
  load_mapping,
}

-- Each text is a scope, once it is trimmed.
abbrev pub AreScopes : List Bytes → List Scope → Type 0
AreScopes [] [] = Unit
AreScopes (value ∷ values) (scope ∷ scopes) = (new_scope value ≡ ok scope) × AreScopes values scopes
AreScopes _ _ = ⊥

abbrev pub AreSubjects : List SubjectEntry → List MappingSubject → Type 0
AreSubjects [] [] = Unit
AreSubjects (entry ∷ entries) (m ∷ ms) =
    (m.issuer ≡ entry.issuer)
    × (m.subject ≡ entry.subject)
    × AreScopes entry.scopes m.scopes
    × AreSubjects entries ms
AreSubjects _ _ = ⊥

to_scopes-AreScopes :
    (values : List Bytes) {scopes : List Scope}
    → to_scopes values ≡ ok scopes
    → AreScopes values scopes
unfolding to_scopes
to_scopes-AreScopes [] h = subst (AreScopes []) (ok-inj h) tt
to_scopes-AreScopes (value ∷ values) h =
    let (scope, e, h') = >>=-eq-ok (wrapping "parse document scope" (new_scope value)) _ h in
    let (scopes, e', h'') = >>=-eq-ok (to_scopes values) _ h' in
    subst (AreScopes (value ∷ values)) (ok-inj h'')
      (wrapping-eq-ok _ _ e, to_scopes-AreScopes values e')

to_scopes_of_AreScopes :
    (values : List Bytes) (scopes : List Scope)
    → AreScopes values scopes
    → to_scopes values ≡ ok scopes
unfolding to_scopes
to_scopes_of_AreScopes [] [] h = refl
to_scopes_of_AreScopes [] (scope ∷ scopes) h = absurd h
to_scopes_of_AreScopes (value ∷ values) [] h = absurd h
to_scopes_of_AreScopes (value ∷ values) (scope ∷ scopes) (e, h) =
    rw e (rw (to_scopes_of_AreScopes values scopes h) refl)

to_subjects-AreSubjects :
    (entries : List SubjectEntry) {ms : List MappingSubject}
    → to_subjects entries ≡ ok ms
    → AreSubjects entries ms
unfolding to_subjects
to_subjects-AreSubjects [] h = subst (AreSubjects []) (ok-inj h) tt
to_subjects-AreSubjects (entry ∷ entries) h =
    let (scopes, e, h') = >>=-eq-ok (wrapping "build scopes" (to_scopes entry.scopes)) _ h in
    let (ms, e', h'') = >>=-eq-ok (to_subjects entries) _ h' in
    subst (AreSubjects (entry ∷ entries)) (ok-inj h'') (
      refl,
      refl,
      to_scopes-AreScopes entry.scopes (wrapping-eq-ok _ _ e),
      to_subjects-AreSubjects entries e',
    )

to_subjects_of_AreSubjects :
    (entries : List SubjectEntry) (ms : List MappingSubject)
    → AreSubjects entries ms
    → to_subjects entries ≡ ok ms
unfolding to_subjects
to_subjects_of_AreSubjects [] [] h = refl
to_subjects_of_AreSubjects [] (m ∷ ms) h = absurd h
to_subjects_of_AreSubjects (entry ∷ entries) [] h = absurd h
to_subjects_of_AreSubjects (entry ∷ entries) (m ∷ ms) (i, s, e, h) =
    rw (to_scopes_of_AreScopes entry.scopes m.scopes e) (
      rw (to_subjects_of_AreSubjects entries ms h)
        (λ j. ok (record { issuer = sym i j; subject = sym s j; scopes = m.scopes } ∷ ms)))

module _ (sha256 : Bytes → Bytes) (read_file : Bytes → Result Bytes) (toml : Toml) (l : Loader)
    (ctx : Context) where
  -- The document of a file: its subjects in order, with their scopes, and the hash of the file.
  abbrev pub IsDocument : MappingDocument → Type 0
  IsDocument document =
      (bytes : Bytes) × (file : MappingFile) × (ctx.cancelled ≡ none)
      × (read_file l.file_path ≡ ok bytes)
      × (toml bytes ≡ ok (file, []))
      × (document.checksum ≡ codes "sha256:" ++ hex (sha256 bytes))
      × AreSubjects file.subjects document.subjects

  mapping_of-IsDocument :
      (bytes : Bytes) (file : MappingFile) (keys : List Bytes) {document : MappingDocument}
      → ctx.cancelled ≡ none
      → read_file l.file_path ≡ ok bytes
      → toml bytes ≡ ok (file, keys)
      → mapping_of sha256 bytes (file, keys) ≡ ok document
      → IsDocument document
  unfolding mapping_of compute_checksum
  mapping_of-IsDocument bytes file (key ∷ keys) live read decoded h = absurd (err≢ok h)
  mapping_of-IsDocument bytes file [] live read decoded h =
      let (subjects, e, h') = >>=-eq-ok (to_subjects file.subjects) _ h in
      subst IsDocument (ok-inj h')
        (bytes, file, live, read, decoded, refl, to_subjects-AreSubjects file.subjects e)

  loaded-IsDocument :
      {document : MappingDocument}
      → load_mapping sha256 read_file toml l ctx ≡ ok document
      → IsDocument document
  unfolding load_mapping
  loaded-IsDocument h = elim (Option-cases ctx.cancelled) [
    | inr (e, late) ↦ absurd (err≢ok (rw (late, load_mapping) at h))
    | inl live ↦
        let (bytes, read, h') =
          >>=-eq-ok (wrapping "read file" (read_file l.file_path)) _
            (rw (live, load_mapping) at h) in
        let ((file, keys), decoded, h'') =
          >>=-eq-ok (wrapping "parse auth mapping TOML" (toml bytes)) _ h' in
        mapping_of-IsDocument bytes file keys live (wrapping-eq-ok _ _ read)
          (wrapping-eq-ok _ _ decoded) h''
  ]

  loaded_of_IsDocument :
      (document : MappingDocument)
      → IsDocument document
      → load_mapping sha256 read_file toml l ctx ≡ ok document
  unfolding load_mapping mapping_of compute_checksum
  loaded_of_IsDocument document (bytes, file, live, read, decoded, sum, subjects) =
      rw (live, load_mapping)
        (rw read (
          rw decoded (
            rw (to_subjects_of_AreSubjects file.subjects document.subjects subjects)
              (λ i. ok (record { checksum = sym sum i; subjects = document.subjects })))))

  -- A document is loaded exactly when the request is live, the file can be read, it is TOML whose
  -- keys are all known, and each of its scopes is one: the document then has the file's subjects
  -- in order with their scopes, trimmed, and the checksum of the file.
  pub load_mapping_iff :
      (document : MappingDocument)
      → (load_mapping sha256 read_file toml l ctx ≡ ok document) ↔ IsDocument document
  load_mapping_iff document = (loaded-IsDocument, loaded_of_IsDocument document)

-- The scopes of a loaded document are accepted as they are.
AreScopes-normal :
    (values : List Bytes) (scopes : List Scope)
    → AreScopes values scopes
    → All (λ scope. new_scope scope ≡ ok scope) scopes
AreScopes-normal [] [] h = tt
AreScopes-normal [] (scope ∷ scopes) h = absurd h
AreScopes-normal (value ∷ values) [] h = absurd h
AreScopes-normal (value ∷ values) (scope ∷ scopes) (e, h) =
    ((new_scope-normal value e).1, AreScopes-normal values scopes h)

pub AreSubjects-normal :
    (entries : List SubjectEntry) (ms : List MappingSubject)
    → AreSubjects entries ms
    → All (λ (m : MappingSubject). All (λ scope. new_scope scope ≡ ok scope) m.scopes) ms
AreSubjects-normal [] [] h = tt
AreSubjects-normal [] (m ∷ ms) h = absurd h
AreSubjects-normal (entry ∷ entries) [] h = absurd h
AreSubjects-normal (entry ∷ entries) (m ∷ ms) (i, s, e, h) =
    (AreScopes-normal entry.scopes m.scopes e, AreSubjects-normal entries ms h)
