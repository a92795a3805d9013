-- ===== src/VaultFs/Read/Laws.antt =====
-- Which file is read for a note.
use canterbury.Base.{
  ◌≤◌, true, false, Option-cases, Bool-cases, inl, inr, List, ◌≡◌, sym, ap, ◌∙◌, arith, Bytes,
  codes, ltb, String,
}
use canterbury.Strings.Affix.{has_prefix}
use canterbury.Errors.{
  Result, Result-cases, ok, err, err≢ok, ok-inj, wrapping, wrapping-eq-ok, >>=-eq-ok,
}
use canterbury.Context.{Context}
use canterbury.Domain.Vault.Note.{Note, NotePath}
use canterbury.VaultFs.Paths.{
  Files, FileInfo, is_hidden_or_system_path, is_within_root, join_path, join_vault_path, resolved,
}
use canterbury.VaultFs.Paths.Within.{ExtendsBy, is_within_root-ExtendsBy}
use canterbury.VaultFs.Frontmatter.{Yaml, NoteDocument, parse_note_document}
use canterbury.VaultFs.Read.{
  Repository, default_max_note_bytes, told, note_of, read_file_note, read_note,
}

told-eq-ok {ℓ} :
    {A : Type ℓ} (missing other : String) (m : Result A) {a : A}
    → told missing other m ≡ ok a
    → m ≡ ok a
told-eq-ok missing other (ok b) h = h
told-eq-ok missing other (err e) h = absurd (err≢ok h)

-- Where a note comes from.
pub record IsRead (files : Files) (yaml : Yaml) (root : Bytes) (path : NotePath) (note : Note)
    : Type 0 where
  pub file : Bytes
  pub rest : List Bytes
  pub info : FileInfo
  pub content : Bytes
  pub document : NoteDocument
  pub visible : is_hidden_or_system_path path ≡ false
  pub followed : files.eval_symlinks (join_path root path) ≡ ok file
  pub below_root : ExtendsBy root file rest
  pub status : files.stat file ≡ ok info
  pub plain_file : info.is_dir ≡ false
  pub size : info.size ≤ default_max_note_bytes
  pub bytes : files.read_file file ≡ ok content
  pub parsed : parse_note_document yaml content ≡ ok document
  pub same : note ≡ note_of path info document

module _ (files : Files) (yaml : Yaml) where
  joined :
      (root : Bytes) (path : NotePath) {file : Bytes}
      → join_vault_path files root path ≡ ok file
      → (files.eval_symlinks (join_path root path) ≡ ok file) × (is_within_root root file ≡ true)
  unfolding join_vault_path resolved
  joined root path {file} h = elim (Result-cases (files.eval_symlinks (join_path root path))) [
    | inr (e, lost) ↦ absurd (err≢ok (rw lost at h))
    | inl (f, found) ↦ elim (Bool-cases (is_within_root root f)) [
      | inr out ↦ absurd (err≢ok (rw (found, out) at h))
      | inl within ↦
          let same : f ≡ file = ok-inj (rw (found, within) at h) in
          (found ∙ ap ok same, ap (is_within_root root) (sym same) ∙ within)
    ]
  ]

  pub read_file_note-IsRead :
      (root : Bytes) (path : NotePath) (file : Bytes) (rest : List Bytes) {note : Note}
      → is_hidden_or_system_path path ≡ false
      → files.eval_symlinks (join_path root path) ≡ ok file
      → ExtendsBy root file rest
      → read_file_note files yaml path file ≡ ok note
      → IsRead files yaml root path note
  unfolding read_file_note
  read_file_note-IsRead root path file rest visible followed below h =
      let (info, status, r1) = >>=-eq-ok (told "stat note" "stat note" (files.stat file)) _ h in
      elim (Bool-cases info.is_dir) [
        | inl dir ↦ absurd (err≢ok (rw dir at r1))
        | inr plain ↦ elim (Bool-cases (ltb default_max_note_bytes info.size)) [
          | inl large ↦ absurd (err≢ok (rw (plain, large) at r1))
          | inr small ↦
              let (content, bytes, r2) =
                >>=-eq-ok (told "read note" "read file" (files.read_file file)) _
                  (rw (plain, small) at r1) in
              let (document, parsed, r3) =
                >>=-eq-ok (wrapping "parse note document" (parse_note_document yaml content)) _
                  r2 in
              record {
                file = file;
                rest = rest;
                info = info;
                content = content;
                document = document;
                visible = visible;
                followed = followed;
                below_root = below;
                status = told-eq-ok "stat note" "stat note" _ status;
                plain_file = plain;
                size = ground arith;
                bytes = told-eq-ok "read note" "read file" _ bytes;
                parsed = wrapping-eq-ok "parse note document" _ parsed;
                same = sym (ok-inj r3);
              }
        ]
      ]

  -- A note that is read comes from a plain file of at most ten megabytes that lies below the root
  -- once all links are followed; its path has no element that begins with a dot, and its body and
  -- access are those that the text of the file gives.
  pub read_note-IsRead :
      (r : Repository) (ctx : Context) (path : NotePath) {note : Note}
      → has_prefix r.root (codes "/") ≡ true
      → read_note files yaml r ctx path ≡ ok note
      → IsRead files yaml r.root path note
  unfolding read_note
  read_note-IsRead r ctx path {note} absolute h = elim (Option-cases ctx.cancelled) [
    | inr (e, stopped) ↦ absurd (err≢ok (rw stopped at h))
    | inl live ↦ elim (Bool-cases (is_hidden_or_system_path path)) [
      | inl hidden ↦ absurd (err≢ok (rw (live, hidden) at h))
      | inr visible ↦
          let (file, found, rest) =
            >>=-eq-ok (wrapping "join vault path" (join_vault_path files r.root path)) _
              (rw (live, visible) at h) in
          let (followed, within) = joined r.root path (wrapping-eq-ok "join vault path" _ found) in
          let (more, below) = is_within_root-ExtendsBy r.root file absolute within in
          read_file_note-IsRead r.root path file more visible followed below rest
    ]
  ]
