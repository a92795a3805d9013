-- ===== src/Errors/Sentinel.antt =====
-- The sentinel errors of the repository's packages, of the standard library and of the JWT
-- library, by their names.
use canterbury.Base.{ℕ, Bool, ◌==◌}

pub data Sentinel : Type 0 where
  -- internal/domain/vault/errors.go
  invalid_note_path invalid_tag invalid_scope invalid_search note_not_found : Sentinel
  vault_unavailable : Sentinel
  -- internal/domain/audit/errors.go
  invalid_event_id invalid_request_id invalid_trace_id : Sentinel
  -- internal/domain/auth/errors.go
  permission_denied missing_principal : Sentinel
  -- internal/app/auth/errors.go
  malformed_token invalid_token_signature expired_token wrong_issuer wrong_audience : Sentinel
  missing_subject principal_resolution_failed : Sentinel
  -- internal/interfaces/vaultrpc/auth_context.go
  multiple_headers missing_bearer_token malformed_authorization : Sentinel
  -- internal/domain/devauth/errors.go
  claims_without_subject missing_audience negative_ttl large_ttl : Sentinel
  -- internal/adapters/vaultfs/errors.go, frontmatter.go
  invalid_root file_too_large is_directory unclosed_frontmatter : Sentinel
  -- internal/adapters/auditfs/errors.go
  invalid_audit_root invalid_writer_id event_missing_id event_unknown_type : Sentinel
  invalid_scopes event_missing_timestamp : Sentinel
  -- internal/adapters/authfs/errors.go, devauthjwt/errors.go, idgen/errors.go, healthcli/service.go
  invalid_file_path unrecognized_keys invalid_issuer invalid_timestamp : Sentinel
  healthcheck_failed : Sentinel
  -- context.Canceled, context.DeadlineExceeded, os.ErrNotExist, io.ErrShortWrite,
  -- http.ErrServerClosed, flag.ErrHelp
  canceled deadline_exceeded not_exist short_write server_closed flag_help : Sentinel
  -- github.com/golang-jwt/jwt/v5
  jwt_malformed jwt_signature_invalid jwt_expired jwt_invalid_issuer : Sentinel
  jwt_invalid_audience jwt_unverifiable : Sentinel

abbrev number : Sentinel → ℕ
number invalid_note_path = 0
number invalid_tag = 1
number invalid_scope = 2
number invalid_search = 3
number note_not_found = 4
number vault_unavailable = 5
number invalid_event_id = 6
number invalid_request_id = 7
number invalid_trace_id = 8
number permission_denied = 9
number missing_principal = 10
number malformed_token = 11
number invalid_token_signature = 12
number expired_token = 13
number wrong_issuer = 14
number wrong_audience = 15
number missing_subject = 16
number principal_resolution_failed = 17
number multiple_headers = 18
number missing_bearer_token = 19
number malformed_authorization = 20
number claims_without_subject = 21
number missing_audience = 22
number negative_ttl = 23
number large_ttl = 24
number invalid_root = 25
number file_too_large = 26
number is_directory = 27
number unclosed_frontmatter = 28
number invalid_audit_root = 29
number invalid_writer_id = 30
number event_missing_id = 31
number event_unknown_type = 32
number invalid_scopes = 33
number event_missing_timestamp = 34
number invalid_file_path = 35
number unrecognized_keys = 36
number invalid_issuer = 37
number invalid_timestamp = 38
number healthcheck_failed = 39
number canceled = 40
number deadline_exceeded = 41
number not_exist = 42
number short_write = 43
number jwt_malformed = 44
number jwt_signature_invalid = 45
number jwt_expired = 46
number jwt_invalid_issuer = 47
number jwt_invalid_audience = 48
number jwt_unverifiable = 49
number server_closed = 50
number flag_help = 51

-- Two sentinels are the same value exactly when they are the same variable.
abbrev pub same : Sentinel → Sentinel → Bool
same s t = number s == number t
