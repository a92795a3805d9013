-- ===== src/Domain/Vault/NotePath.antt =====
-- internal/domain/vault/note.go: `NewNotePath`.
pub mod Laws
use canterbury.Base.{Bool, ◌||◌, not, Bytes, codes, ◌=s=◌, if◌then◌else◌}
use canterbury.Strings.Trim.{is_empty, trim_space}
use canterbury.Strings.Affix.{has_prefix, has_suffix, contains}
use canterbury.Strings.Case.{to_lower}
use canterbury.Strings.Clean.{clean, dot, dot_dot}
use canterbury.Errors.{Result, ok, err, sentinel, invalid_note_path}
use canterbury.Domain.Vault.Note.{NotePath}

module _ (lower_unicode : Bytes → Bytes) where
  unfoldable pub new_note_path : Bytes → Result NotePath
  new_note_path value =
      let normalized = trim_space value in
      let cleaned = clean normalized in
      if is_empty normalized
      then err (sentinel invalid_note_path)
      else if contains normalized (codes "\\")
      then err (sentinel invalid_note_path)
      else if has_prefix normalized (codes "/")
      then err (sentinel invalid_note_path)
      else if cleaned =s= dot || cleaned =s= dot_dot || has_prefix cleaned (codes "../")
      then err (sentinel invalid_note_path)
      else if not (has_suffix (to_lower lower_unicode cleaned) (codes ".md"))
      then err (sentinel invalid_note_path)
      else ok cleaned
