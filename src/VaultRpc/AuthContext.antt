-- ===== src/VaultRpc/AuthContext.antt =====
-- internal/interfaces/vaultrpc/auth_context.go: the interceptor that authenticates a request. A
-- request is its header; the next function of the chain is an action for a context.
pub mod Laws
use canterbury.Base.{
  ℕ, suc, Bool, true, false, ◌&&◌, ◌||◌, not, Option, none, some, String, List, [], ◌∷◌, ◌++◌,
  Bytes, if◌then◌else◌,
}
use canterbury.Base.Int.{ℤ}
use canterbury.Errors.{
  Error, Result, ok, err, message, wrap, is, failure_context_from_error, FailureContext,
  code_unauthenticated, code_internal, missing_bearer_token, malformed_authorization,
  multiple_headers, canceled, deadline_exceeded, malformed_token, invalid_token_signature,
  expired_token, wrong_issuer, wrong_audience, missing_subject,
}
use canterbury.Time.{Time, utc, sub}
use canterbury.Context.{Context, Principal, Metadata, with_principal, metadata_from_context}
use canterbury.Domain.Audit.{
  Event, Actor, connect_rpc, deny, failed, unauthenticated, authentication_failed,
}
use canterbury.Service.Exec.{AuditLogger, World, Exec}
use canterbury.Bearer.{Header, bearer_token_from_header}
use canterbury.VaultRpc.Handlers.{refusal, classify_system_error}

pub record Authentication : Type 0 where
  pub authenticate : Context → Bytes → Result Principal
  pub mapping_checksum : Bytes

pub record AuthContextInterceptor : Type 0 where
  pub authenticator : Authentication
  pub audit_log : AuditLogger
  pub clock : ℕ → Time

unfoldable pub new_auth_context_interceptor :
    Option Authentication → Option AuditLogger → (ℕ → Time) → Result AuthContextInterceptor
new_auth_context_interceptor none audit_log clock = err (message "authenticator is required")
new_auth_context_interceptor (some authenticator) none clock =
    err (message "audit logger is required")
new_auth_context_interceptor (some authenticator) (some audit_log) clock =
    ok (record { authenticator = authenticator; audit_log = audit_log; clock = clock })

unfoldable pub handle_auth_interceptor_error : Error → Error
handle_auth_interceptor_error e =
    if is e missing_bearer_token || is e malformed_authorization || is e multiple_headers
    then refusal code_unauthenticated "invalid authorization"
    else if is e canceled || is e deadline_exceeded
    then classify_system_error e
    else refusal code_unauthenticated "authentication failed"

abbrev pub handle_auth_audit_error : Error → Error
handle_auth_audit_error e = refusal code_internal "authentication failed"

unfoldable pub should_record_auth_failed : Error → Bool
should_record_auth_failed e = not (is e canceled) && not (is e deadline_exceeded)

unfoldable pub auth_failure_reason : Error → String
auth_failure_reason e =
    if is e missing_bearer_token
    then "missing_bearer_token"
    else if is e malformed_authorization || is e multiple_headers
    then "malformed_authorization"
    else if is e malformed_token
    then "malformed_jwt"
    else if is e invalid_token_signature
    then "invalid_signature"
    else if is e expired_token
    then "expired_token"
    else if is e wrong_issuer
    then "wrong_issuer"
    else if is e wrong_audience
    then "wrong_audience"
    else if is e missing_subject
    then "missing_subject"
    else "principal_resolution_failed"

-- The metadata of the context, or the zero value with the interface of the client.
abbrev metadata_or_zero : Option Metadata → Metadata
metadata_or_zero none = record {
  request_id = [];
  trace_id = [];
  client = record { interface = connect_rpc; user_agent = []; remote_address_hash = [] };
}
metadata_or_zero (some metadata) = metadata

abbrev actor_of : Option FailureContext → Actor
actor_of none = record { issuer = []; subject_hash = []; scopes = [] }
actor_of (some failure_context) = record {
  issuer = failure_context.issuer;
  subject_hash = failure_context.subject_hash;
  scopes = [];
}

unfoldable pub auth_failed_event : AuthContextInterceptor → Context → Error → Time → Time → Event
auth_failed_event i ctx e started_at finished_at =
    let metadata = metadata_or_zero (metadata_from_context ctx) in
    record {
      id = [];
      occurred_at = utc started_at;
      request_id = metadata.request_id;
      trace_id = metadata.trace_id;
      actor = actor_of (failure_context_from_error e);
      client = metadata.client;
      policy = record {
        mapping_checksum = i.authenticator.mapping_checksum;
        matched_scopes = [];
        decision = deny;
      };
      outcome = record {
        status = failed;
        code = unauthenticated;
        duration = sub finished_at started_at;
      };
      details = some (authentication_failed (auth_failure_reason e));
    }

unfoldable pub record_auth_failed : AuthContextInterceptor → Context → Error → Time → Exec Unit
record_auth_failed i ctx e started_at w =
    let event = auth_failed_event i ctx e started_at (i.clock w.readings) in
    let w' = record w { readings = suc w.readings } in
    elim (i.audit_log ctx event) [
      | some x ↦ (err (wrap "record auth failed event" x), w')
      | none ↦ (ok tt, record w' { log = w.log ++ event ∷ [] })
    ]

module _ {A : Type 0} where
  -- The answer to a failure, after the attempt to record it.
  unfoldable pub auth_failure : Error → Result {0} Unit → Result A
  auth_failure e (err x) = err (handle_auth_audit_error x)
  auth_failure e (ok recorded) = err (handle_auth_interceptor_error e)

  unfoldable pub reject : AuthContextInterceptor → Context → Error → Time → Exec A
  reject i ctx e started_at w =
      let (recorded, w') = record_auth_failed i ctx e started_at w in (auth_failure e recorded, w')

  unfoldable pub wrap_unary :
      AuthContextInterceptor → Header → (Context → Exec A) → Context → Exec A
  wrap_unary i header next ctx w =
      let started_at = i.clock w.readings in
      let w' = record w { readings = suc w.readings } in
      elim (bearer_token_from_header header) [
        | err e ↦ reject i ctx e started_at w'
        | ok token ↦ elim (i.authenticator.authenticate ctx token) [
          | err e ↦
              if should_record_auth_failed e
              then reject i ctx e started_at w'
              else (err (handle_auth_interceptor_error e), w')
          | ok principal ↦ next (with_principal ctx principal) w'
        ]
      ]
