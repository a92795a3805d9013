-- ===== src/AuditFs/Data.antt =====
-- internal/adapters/auditfs/event_data.go, with the `String` methods of internal/domain/audit.
pub mod Marshal
use canterbury.Base.{Option, List, [], ◌∷◌, Bytes, codes, if◌then◌else◌}
use canterbury.Strings.Trim.{is_empty, trim_space}
use canterbury.Errors.{
  Result, ok, err, sentinel, wrapping, event_missing_id, event_missing_timestamp,
  event_unknown_type, invalid_scopes, ◌>>=◌,
}
use canterbury.Time.{Time, is_zero, utc}
use canterbury.Domain.Vault.Access.{Scope}
use canterbury.Domain.Audit.{
  Event, Actor, Client, ClientInterface, no_interface, connect_rpc, service, Policy, PolicyDecision,
  no_decision, allow, deny, Outcome, OutcomeStatus, no_status, success, failed, error, OutcomeCode,
  no_code, outcome_ok, permission_denied, unauthenticated, invalid_argument, not_found, unavailable,
  internal, EventType, unknown, auth_failed, auth_succeeded, vault_read_allowed, vault_read_denied,
  vault_read_failed, vault_search_completed, vault_search_failed, EventDetails, event_type,
}

unfoldable pub interface_text : ClientInterface → Bytes
interface_text no_interface = []
interface_text connect_rpc = codes "connectrpc"
interface_text service = codes "service"

unfoldable pub decision_text : PolicyDecision → Bytes
decision_text no_decision = []
decision_text allow = codes "allow"
decision_text deny = codes "deny"

unfoldable pub status_text : OutcomeStatus → Bytes
status_text no_status = []
status_text success = codes "success"
status_text failed = codes "failed"
status_text error = codes "error"

unfoldable pub code_text : OutcomeCode → Bytes
code_text no_code = []
code_text outcome_ok = codes "ok"
code_text permission_denied = codes "permission_denied"
code_text unauthenticated = codes "unauthenticated"
code_text invalid_argument = codes "invalid_argument"
code_text not_found = codes "not_found"
code_text unavailable = codes "unavailable"
code_text internal = codes "internal"

unfoldable pub type_text : EventType → Bytes
type_text unknown = []
type_text auth_failed = codes "auth.failed"
type_text auth_succeeded = codes "auth.succeeded"
type_text vault_read_allowed = codes "vault.read.allowed"
type_text vault_read_denied = codes "vault.read.denied"
type_text vault_read_failed = codes "vault.read.failed"
type_text vault_search_completed = codes "vault.search.completed"
type_text vault_search_failed = codes "vault.search.failed"

pub record ActorData : Type 0 where
  pub issuer : Bytes
  pub subject_hash : Bytes
  pub scopes : List Bytes

pub record PolicyData : Type 0 where
  pub mapping_checksum : Bytes
  pub matched_scopes : List Bytes
  pub decision : Bytes

pub record EventData : Type 0 where
  pub id : Bytes
  pub occurred_at : Time
  pub event_type : Bytes
  pub request_id : Bytes
  pub trace_id : Bytes
  pub actor : ActorData
  pub client : Client
  pub policy : PolicyData
  pub outcome : Outcome
  pub details : Option EventDetails

unfoldable pub strings_from_scopes : List Scope → Result (List Bytes)
strings_from_scopes [] = ok []
strings_from_scopes (scope ∷ scopes) =
    let normalized = trim_space scope in
    let rest = strings_from_scopes scopes in
    if is_empty normalized
    then err (sentinel invalid_scopes)
    else rest >>= λ others. ok (normalized ∷ others)

unfoldable pub actor_data_from_domain : Actor → Result ActorData
actor_data_from_domain actor =
    wrapping "build actor scopes" (strings_from_scopes actor.scopes) >>= λ scopes.
    ok (record { issuer = actor.issuer; subject_hash = actor.subject_hash; scopes = scopes })

unfoldable pub policy_data_from_domain : Policy → Result PolicyData
policy_data_from_domain policy =
    wrapping "build policy matched scopes" (strings_from_scopes policy.matched_scopes)
    >>= λ matched_scopes. ok (record {
      mapping_checksum = policy.mapping_checksum;
      matched_scopes = matched_scopes;
      decision = decision_text policy.decision;
    })

unfoldable pub event_type_from_domain : EventType → Result Bytes
event_type_from_domain unknown = err (sentinel event_unknown_type)
event_type_from_domain type =
    let normalized = trim_space (type_text type) in
    if is_empty normalized then err (sentinel event_unknown_type) else ok normalized

unfoldable pub event_data_from_domain : Event → Result EventData
event_data_from_domain event =
    let event_id = trim_space event.id in
    let timestamp = utc event.occurred_at in
    if is_empty event_id
    then err (sentinel event_missing_id)
    else if is_zero timestamp
    then err (sentinel event_missing_timestamp)
    else wrapping "format event type" (event_type_from_domain (event_type event)) >>= λ type.
        wrapping "format actor data" (actor_data_from_domain event.actor) >>= λ actor.
        wrapping "format policy data" (policy_data_from_domain event.policy) >>= λ policy.
        ok (record {
          id = event_id;
          occurred_at = timestamp;
          event_type = type;
          request_id = event.request_id;
          trace_id = event.trace_id;
          actor = actor;
          client = event.client;
          policy = policy;
          outcome = event.outcome;
          details = event.details;
        })
