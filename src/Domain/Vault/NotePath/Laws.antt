-- ===== src/Domain/Vault/NotePath/Laws.antt =====
-- What a note path is made of.
use canterbury.Base.{true, false, List, ◌≡◌, subst, arith, Bytes, codes, All, ◌=s=◌}
use canterbury.Strings.Trim.{is_empty, trim_space}
use canterbury.Strings.Affix.{has_prefix, has_suffix, contains}
use canterbury.Strings.Case.{to_lower}
use canterbury.Strings.Split.{split_on}
use canterbury.Strings.Clean.{slash, dot, dot_dot, clean}
use canterbury.Strings.Clean.Laws.{IsPlain}
use canterbury.Strings.Clean.Relative.{
  IsInside, clean-IsInside, split_on_of_IsInside, clean_of_IsInside,
}
use canterbury.Errors.{ok}
use canterbury.Domain.Vault.Note.{NotePath}
use canterbury.Domain.Vault.NotePath.{new_note_path}

module _ (lower_unicode : Bytes → Bytes) where
  -- What `NewNotePath` has tested when it accepts a text.
  record IsAccepted (value path : Bytes) : Type 0 where
    text : is_empty (trim_space value) ≡ false
    backslash : contains (trim_space value) (codes "\\") ≡ false
    relative : has_prefix (trim_space value) (codes "/") ≡ false
    not_dot : (clean (trim_space value) =s= dot) ≡ false
    not_dot_dot : (clean (trim_space value) =s= dot_dot) ≡ false
    inside : has_prefix (clean (trim_space value)) (codes "../") ≡ false
    markdown : has_suffix (to_lower lower_unicode path) (codes ".md") ≡ true
    cleaned : clean (trim_space value) ≡ path

  new_note_path-IsAccepted :
      (value : Bytes) {path : NotePath}
      → new_note_path lower_unicode value ≡ ok path
      → IsAccepted value path
  unfolding new_note_path
  new_note_path-IsAccepted value h = ground arith

  pub new_note_path-IsInside :
      (value : Bytes) {path : NotePath}
      → new_note_path lower_unicode value ≡ ok path
      → (parts : List Bytes) × IsInside path parts
  new_note_path-IsInside value h =
      let a = new_note_path-IsAccepted value h in
      subst (λ p. (parts : List Bytes) × IsInside p parts) a.cleaned
        (clean-IsInside _ a.text a.relative a.not_dot a.not_dot_dot a.inside)

  -- A note path is a sequence of names below the root of the vault: no element is empty, `.` or
  -- `..`, and the last one ends in `.md`, whatever its case.
  pub new_note_path-IsPlain :
      (value : Bytes) {path : NotePath}
      → new_note_path lower_unicode value ≡ ok path
      → All IsPlain (split_on slash path)
        × (has_suffix (to_lower lower_unicode path) (codes ".md") ≡ true)
  new_note_path-IsPlain value {path} h =
      let (parts, inside) = new_note_path-IsInside value h in
      (
        rw (split_on_of_IsInside path parts inside) inside.plain,
        (new_note_path-IsAccepted value h).markdown,
      )

  -- Cleaning a note path again changes nothing.
  pub clean-new_note_path :
      (value : Bytes) {path : NotePath}
      → new_note_path lower_unicode value ≡ ok path
      → clean path ≡ path
  clean-new_note_path value {path} h =
      let (parts, inside) = new_note_path-IsInside value h in clean_of_IsInside path parts inside
