-- ===== src/VaultFs/Read.antt =====
-- internal/adapters/vaultfs/read.go and repository.go
pub mod Laws
use canterbury.Base.{
  ℕ, ◌*◌, Bool, true, false, String, Option, none, some, List, [], Bytes, length, take, ◌-◌, ltb,
  if◌then◌else◌,
}
use canterbury.Strings.Trim.{is_empty, trim_space}
use canterbury.Errors.{
  Error, Result, ok, err, is, sentinel, wrap, wrapping, invalid_note_path, not_exist,
  note_not_found, is_directory, file_too_large, invalid_root, ◌>>=◌,
}
use canterbury.Context.{Context}
use canterbury.Domain.Vault.Note.{Note, NotePath}
use canterbury.VaultFs.Paths.{
  Files, FileInfo, base, ext, is_hidden_or_system_path, join_vault_path, file_error,
}
use canterbury.VaultFs.Frontmatter.{Yaml, NoteDocument, parse_note_document}

pub record Repository : Type 0 where
  pub root : Bytes

-- `filepath.Abs` is a parameter: it depends on the working directory.
unfoldable pub new_repository : (Bytes → Result Bytes) → Files → Bytes → Result Repository
new_repository abs files root =
    let trimmed = trim_space root in
    if is_empty trimmed
    then err (wrap "create vault filesystem repository" (sentinel invalid_root))
    else do
      abs_root ← wrapping "resolve vault root absolute path" (abs trimmed)
      resolved_root ← wrapping "resolve vault root symlinks" (files.eval_symlinks abs_root)
      ok (record { root = resolved_root })

abbrev pub default_max_note_bytes : ℕ
default_max_note_bytes = 10 * 1024 * 1024

unfoldable pub title_from_note_path : NotePath → Bytes
title_from_note_path path =
    let file_name = base path in take (length file_name - length (ext file_name)) file_name

abbrev pub told {ℓ} : {A : Type ℓ} → String → String → Result A → Result A
told missing other (ok a) = ok a
told missing other (err e) = err (file_error missing other e)

unfoldable pub note_of : NotePath → FileInfo → NoteDocument → Note
note_of path info document =
    let title = title_from_note_path path in
    record {
      ref = record { path = path; title = title };
      metadata = record {
        path = path;
        title = title;
        tags = document.tags;
        access = document.access;
        frontmatter = document.frontmatter;
        size_bytes = info.size;
        modified_at = info.mod_time;
        has_frontmatter = document.has_frontmatter;
      };
      content = document.body;
    }

module _ (files : Files) (yaml : Yaml) where
  -- The file of a note, once its path is known to be within the root.
  unfoldable pub read_file_note : NotePath → Bytes → Result Note
  read_file_note path file_path = told "stat note" "stat note" (files.stat file_path) >>= λ info.
      if info.is_dir
      then err (wrap "note is directory" (sentinel is_directory))
      else if ltb default_max_note_bytes info.size
      then err (wrap "stat note" (sentinel file_too_large))
      else told "read note" "read file" (files.read_file file_path) >>= λ content.
          wrapping "parse note document" (parse_note_document yaml content) >>= λ document.
          ok (note_of path info document)

  unfoldable pub read_note : Repository → Context → NotePath → Result Note
  read_note r ctx path = elim ctx.cancelled [
    | some e ↦ err e
    | none ↦
        if is_hidden_or_system_path path
        then err (wrap "reject hidden/system note path" (sentinel invalid_note_path))
        else wrapping "join vault path" (join_vault_path files r.root path) >>= λ file_path.
            read_file_note path file_path
  ]
