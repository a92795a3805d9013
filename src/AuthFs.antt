-- ===== src/AuthFs.antt =====
-- internal/adapters/authfs: the scope mapping in a file. The reading of a file, the decoder of TOML
-- and the hash are parameters.
pub mod Laws
use canterbury.Base.{List, [], ◌∷◌, ◌++◌, Bytes, codes, if◌then◌else◌}
use canterbury.Strings.Trim.{is_empty, trim_space}
use canterbury.Errors.{
  Result, ok, err, sentinel, wrap, wrapping, unless, invalid_file_path, unrecognized_keys, ◌>>=◌,
}
use canterbury.Context.{Context}
use canterbury.Domain.Vault.Access.{Scope, new_scope}
use canterbury.Auth.Hash.{hex}
use canterbury.Auth.ScopeMapper.{MappingSubject, MappingDocument}

pub record Loader : Type 0 where
  pub file_path : Bytes

unfoldable pub new_loader : Bytes → Result Loader
new_loader file_path =
    let trimmed = trim_space file_path in
    if is_empty trimmed
    then err (sentinel invalid_file_path)
    else ok (record { file_path = trimmed })

pub record SubjectEntry : Type 0 where
  pub issuer : Bytes
  pub subject : Bytes
  pub scopes : List Bytes

pub record MappingFile : Type 0 where
  pub subjects : List SubjectEntry

-- `toml.Decode`: the file, and the keys that no field of it took.
abbrev pub Toml : Type 0
Toml = Bytes → Result (MappingFile × List Bytes)

unfoldable pub to_scopes : List Bytes → Result (List Scope)
to_scopes [] = ok []
to_scopes (value ∷ values) =
    let rest = to_scopes values in
    wrapping "parse document scope" (new_scope value) >>= λ scope.
    rest >>= λ scopes. ok (scope ∷ scopes)

-- The loop over the entries.
unfoldable pub to_subjects : List SubjectEntry → Result (List MappingSubject)
to_subjects [] = ok []
to_subjects (entry ∷ entries) =
    let rest = to_subjects entries in
    wrapping "build scopes" (to_scopes entry.scopes) >>= λ scopes. rest >>= λ subjects.
    ok (record { issuer = entry.issuer; subject = entry.subject; scopes = scopes } ∷ subjects)

module _ (sha256 : Bytes → Bytes) where
  unfoldable pub compute_checksum : Bytes → Bytes
  compute_checksum bytes = codes "sha256:" ++ hex (sha256 bytes)

  unfoldable pub mapping_of : Bytes → MappingFile × List Bytes → Result MappingDocument
  mapping_of bytes (file, []) = to_subjects file.subjects >>= λ subjects.
      ok (record { checksum = compute_checksum bytes; subjects = subjects })
  mapping_of bytes (file, key ∷ keys) =
      err (wrap "found unrecognized keys" (sentinel unrecognized_keys))

  unfoldable pub load_mapping :
      (Bytes → Result Bytes) → Toml → Loader → Context → Result MappingDocument
  load_mapping read_file toml loader ctx = unless ctx.cancelled (
      wrapping "read file" (read_file loader.file_path) >>= λ bytes.
      wrapping "parse auth mapping TOML" (toml bytes) >>= λ decoded. mapping_of bytes decoded)
