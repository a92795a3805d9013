-- ===== src/Auth/Authenticator.antt =====
-- internal/app/auth/authenticator.go and authenticate.go
pub mod Laws
use canterbury.Base.{Option, none, some, List, Bytes, if◌then◌else◌}
use canterbury.Strings.Trim.{is_empty, trim_space}
use canterbury.Errors.{
  Error, Result, ok, err, message, sentinel, wrap, wrapping, with_failure_context, missing_subject,
  principal_resolution_failed, ◌>>=◌,
}
use canterbury.Time.{Time}
use canterbury.Context.{Context, Principal}
use canterbury.Auth.Hash.{hash_subject}
use canterbury.Auth.ScopeMapper
use canterbury.Auth.ScopeMapper.{ScopeMapper, ScopeLookup, lookup_scopes, no_scopes}

pub record TokenClaims : Type 0 where
  pub issuer : Bytes
  pub subject : Bytes
  pub audiences : List Bytes
  pub expires_at : Time

pub record TokenRequirements : Type 0 where
  pub issuer : Bytes
  pub audience : Bytes

-- The interface that internal/adapters/authjwt implements.
abbrev pub TokenVerifier : Type 0
TokenVerifier = Context → Bytes → TokenRequirements → Result TokenClaims

pub record Authenticator : Type 0 where
  pub issuer : Bytes
  pub audience : Bytes
  pub scope_mapper : ScopeMapper
  pub verifier : TokenVerifier

or_missing {ℓ} : {A : Type ℓ} → Error → Option A → Result A
or_missing e none = err e
or_missing e (some a) = ok a

-- `none` is a nil argument.
unfoldable pub new_authenticator :
    Bytes → Bytes → Option ScopeMapper → Option TokenVerifier → Result Authenticator
unfolding or_missing
new_authenticator issuer audience scope_mapper verifier =
    let issuer' = trim_space issuer in
    let audience' = trim_space audience in
    if is_empty issuer'
    then err (message "issuer is required")
    else if is_empty audience'
    then err (message "audience is required")
    else do
      mapper ← or_missing (message "scope mapper is required") scope_mapper
      verify ← or_missing (message "verifier is required") verifier
      ok (record {
        issuer = issuer';
        audience = audience';
        scope_mapper = mapper;
        verifier = verify;
      })

unfoldable pub mapping_checksum : Authenticator → Bytes
unfolding ScopeMapper.mapping_checksum
mapping_checksum authenticator = ScopeMapper.mapping_checksum authenticator.scope_mapper

unfoldable pub token_requirements : Authenticator → TokenRequirements
token_requirements a = record { issuer = a.issuer; audience = a.audience }

module _ (sha256 : Bytes → Bytes) where
  principal_of : Bytes → Bytes → ScopeLookup → Result Principal
  principal_of issuer subject found =
      if no_scopes found.scopes
      then err (
          with_failure_context (sentinel principal_resolution_failed)
            (record { issuer = issuer; subject_hash = hash_subject sha256 issuer subject }))
      else ok (record {
        issuer = issuer;
        subject = subject;
        subject_hash = hash_subject sha256 issuer subject;
        scopes = found.scopes;
        mapping_checksum = found.mapping_checksum;
      })

  -- `fmt.Errorf("lookup scopes: %w", withFailureContext(err, …))`
  lookup_failed : Bytes → Bytes → Result ScopeLookup → Result ScopeLookup
  lookup_failed issuer subject (ok found) = ok found
  lookup_failed issuer subject (err e) = err (
      wrap "lookup scopes" (
        with_failure_context e
          (record { issuer = issuer; subject_hash = hash_subject sha256 issuer subject })))

  -- What follows the verification of the token.
  unfoldable pub resolve : Authenticator → Context → TokenClaims → Result Principal
  unfolding principal_of lookup_failed
  resolve authenticator ctx claims =
      let issuer = trim_space claims.issuer in
      let subject = trim_space claims.subject in
      if is_empty issuer
      then err (message "issuer is required")
      else if is_empty subject
      then err (
          with_failure_context (sentinel missing_subject)
            (record { issuer = issuer; subject_hash = List.[] }))
      else do
        found ←
            lookup_failed issuer subject
              (lookup_scopes authenticator.scope_mapper ctx issuer subject)
        principal_of issuer subject found

  unfoldable pub authenticate : Authenticator → Context → Bytes → Result Principal
  authenticate authenticator ctx token = elim ctx.cancelled [
    | some e ↦ err e
    | none ↦ do
      claims ←
          wrapping "verify token"
            (authenticator.verifier ctx token (token_requirements authenticator))
      resolve authenticator ctx claims
  ]
