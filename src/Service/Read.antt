-- ===== src/Service/Read.antt =====
-- internal/app/vault/read_note.go and audit_read.go
pub mod Released
pub mod Audited
use canterbury.Base.{Option, none, some, String, Bytes, [], length, if◌then◌else◌}
use canterbury.Strings.Trim.{is_empty}
use canterbury.Errors.{
  Error, Result, ok, err, sentinel, wrap, is, invalid_note_path, note_not_found, vault_unavailable,
  missing_principal,
}
use canterbury.Errors
use canterbury.Time.{Time}
use canterbury.Context.{Context, Principal, principal_from_context}
use canterbury.Domain.Vault.Access.{allows_any, matched_scopes}
use canterbury.Domain.Vault.Note.{Note, NotePath}
use canterbury.Domain.Audit.{
  Event, Outcome, AuditedRef, OutcomeStatus, OutcomeCode, success, failed, error, outcome_ok,
  permission_denied, invalid_argument, not_found, unavailable, internal, allow, deny, read_allowed,
  read_denied, read_failed,
}
use canterbury.Service.Exec.{Service, Exec, ◌>>=◌, ◌>>◌, pure, raise, describe, now, record_event}
use canterbury.Service.Events.{strings_from_scopes, create_event, outcome}
use canterbury.Service.Sanitize.{sanitize_frontmatter}

abbrev pub reason_repository_error : String
reason_repository_error = "repository_error"

abbrev pub reason_invalid_note_path : String
reason_invalid_note_path = "invalid_note_path"

abbrev pub reason_note_not_found : String
reason_note_not_found = "note_not_found"

abbrev pub reason_vault_unavailable : String
reason_vault_unavailable = "vault_unavailable"

abbrev pub reason_no_matching_scope : String
reason_no_matching_scope = "no_matching_scope"

pub record Classified : Type 0 where
  pub status : OutcomeStatus
  pub code : OutcomeCode
  pub reason : String

unfoldable pub classify_read_note_error : Error → Classified
classify_read_note_error e =
    if is e invalid_note_path
    then record { status = failed; code = invalid_argument; reason = reason_invalid_note_path }
    else if is e note_not_found
    then record { status = failed; code = not_found; reason = reason_note_not_found }
    else if is e vault_unavailable
    then record { status = error; code = unavailable; reason = reason_vault_unavailable }
    else record { status = error; code = internal; reason = reason_repository_error }

unfoldable pub read_allowed_event : Context → Principal → Note → Time → Outcome → Event
read_allowed_event ctx principal note started_at result =
    record (create_event ctx principal started_at) {
      outcome = result;
      policy = record {
        mapping_checksum = principal.mapping_checksum;
        matched_scopes = matched_scopes note.metadata.access principal.scopes;
        decision = allow;
      };
      details = some (
          read_allowed (record { path = note.ref.path; title = note.ref.title })
            (strings_from_scopes note.metadata.access.scopes) (length note.content));
    }

unfoldable pub record_read_note_allowed : Service → Context → Principal → Note → Time → Exec Unit
record_read_note_allowed s ctx principal note started_at = do
  result ← outcome s started_at success outcome_ok
  describe "record read allowed event"
      (record_event s ctx (read_allowed_event ctx principal note started_at result))

unfoldable pub read_denied_event : Context → Principal → Note → Time → Outcome → Event
read_denied_event ctx principal note started_at result =
    record (create_event ctx principal started_at) {
      outcome = result;
      policy = record {
        mapping_checksum = principal.mapping_checksum;
        matched_scopes = [];
        decision = deny;
      };
      details = some (
          read_denied (record { path = note.ref.path; title = [] })
            (strings_from_scopes note.metadata.access.scopes) reason_no_matching_scope);
    }

unfoldable pub record_read_note_denied : Service → Context → Principal → Note → Time → Exec Unit
record_read_note_denied s ctx principal note started_at = do
  result ← outcome s started_at failed permission_denied
  describe "record read denied event"
      (record_event s ctx (read_denied_event ctx principal note started_at result))

unfoldable pub read_error_event : Context → Principal → NotePath → String → Time → Outcome → Event
read_error_event ctx principal path reason started_at result =
    let event = create_event ctx principal started_at in
    record event {
      outcome = result;
      policy = record event.policy { mapping_checksum = principal.mapping_checksum };
      details = some (read_failed (record { path = path; title = [] }) reason);
    }

unfoldable pub record_read_note_error :
    Service → Context → Principal → NotePath → Error → Time → Exec Unit
record_read_note_error s ctx principal path e started_at = do
  let classified = classify_read_note_error e
  result ← outcome s started_at classified.status classified.code
  describe "record read error event"
      (record_event s ctx (read_error_event ctx principal path classified.reason started_at result))

unfoldable pub require_principal : Context → Exec Principal
require_principal ctx = elim (principal_from_context ctx) [
  | none ↦ raise (wrap "extract principal from context" (sentinel missing_principal))
  | some principal ↦ pure principal
]

module _ (lower_unicode : Bytes → Bytes) where
  -- The access check, for a note that the repository returned.
  unfoldable pub release : Service → Context → Principal → Note → Time → Exec Note
  release s ctx principal note start_time =
      if allows_any note.metadata.access principal.scopes
      then (do
        describe "record audit log read" (record_read_note_allowed s ctx principal note start_time)
        pure (record note { metadata = sanitize_frontmatter lower_unicode note.metadata }))
      else do
        describe "record audit log denied" (record_read_note_denied s ctx principal note start_time)
        raise (sentinel Errors.permission_denied)

  unfoldable pub read_note : Service → Context → NotePath → Exec Note
  read_note s ctx path = do
    start_time ← now s
    principal ← require_principal ctx
    elim (s.repository.read_note ctx path) [
      | ok note ↦ release s ctx principal note start_time
      | err e ↦ do
        describe "record audit log error" (record_read_note_error s ctx principal path e start_time)
        raise (wrap "read note from repository" e)
    ]
