-- ===== src/Domain/Audit.antt =====
-- internal/domain/audit/event.go: the vocabulary of the audit log. The string constants of a
-- type are the constructors of a data type, and the empty string, where the program leaves it in
-- a record, is a constructor of its own.
pub mod Identifier
use canterbury.Base.{ℕ, Bool, List, Option, none, some, String, Bytes}
use canterbury.Time.{Time, Duration}
use canterbury.Domain.Vault.Access.{Scope}
use canterbury.Domain.Audit.Identifier.{EventId, RequestId, TraceId}

pub record Actor : Type 0 where
  pub issuer : Bytes
  pub subject_hash : Bytes
  pub scopes : List Scope

pub data ClientInterface : Type 0 where
  no_interface connect_rpc service : ClientInterface

pub record Client : Type 0 where
  pub interface : ClientInterface
  pub user_agent : Bytes
  pub remote_address_hash : Bytes

pub data PolicyDecision : Type 0 where
  no_decision allow deny : PolicyDecision

pub record Policy : Type 0 where
  pub mapping_checksum : Bytes
  pub matched_scopes : List Scope
  pub decision : PolicyDecision

pub data OutcomeStatus : Type 0 where
  no_status success failed error : OutcomeStatus

pub data OutcomeCode : Type 0 where
  no_code outcome_ok permission_denied unauthenticated invalid_argument not_found : OutcomeCode
  unavailable internal : OutcomeCode

pub record Outcome : Type 0 where
  pub status : OutcomeStatus
  pub code : OutcomeCode
  pub duration : Duration

pub data EventType : Type 0 where
  unknown auth_failed auth_succeeded vault_read_allowed vault_read_denied : EventType
  vault_read_failed vault_search_completed vault_search_failed : EventType

-- `noteRef` of internal/app/vault/audit.go
pub record AuditedRef : Type 0 where
  pub path : Bytes
  pub title : Bytes

-- `searchNotesEventQueryDetails` of internal/app/vault/audit_search.go
pub record QueryDetails : Type 0 where
  pub text_hash : Option Bytes
  pub has_text : Bool
  pub include_path_prefixes : List Bytes
  pub exclude_path_prefixes : List Bytes
  pub all_tags : List Bytes
  pub any_tags : List Bytes
  pub page_size : ℕ
  pub page_token_hash : Option Bytes

-- `searchNotesEventResultsDetails`
pub record ResultsDetails : Type 0 where
  pub count : ℕ
  pub returned_refs : List Bytes
  pub result_set_hash : Bytes

-- The implementations of the interface `EventDetails`, in internal/app/vault/audit_read.go and
-- audit_search.go and in internal/interfaces/vaultrpc/auth_context.go.
pub data EventDetails : Type 0 where
  read_allowed : AuditedRef → List Bytes → ℕ → EventDetails
  read_denied : AuditedRef → List Bytes → String → EventDetails
  read_failed : AuditedRef → String → EventDetails
  search_completed : QueryDetails → ResultsDetails → EventDetails
  search_failed : QueryDetails → String → EventDetails
  authentication_failed : String → EventDetails

unfoldable pub details_type : EventDetails → EventType
details_type (read_allowed note_ref resource_scopes content_bytes) = vault_read_allowed
details_type (read_denied note_ref resource_scopes reason) = vault_read_denied
details_type (read_failed note_ref reason) = vault_read_failed
details_type (search_completed query results) = vault_search_completed
details_type (search_failed query reason) = vault_search_failed
details_type (authentication_failed reason) = auth_failed

pub record Event : Type 0 where
  pub id : EventId
  pub occurred_at : Time
  pub request_id : RequestId
  pub trace_id : TraceId
  pub actor : Actor
  pub client : Client
  pub policy : Policy
  pub outcome : Outcome
  pub details : Option EventDetails

type_of_details : Option EventDetails → EventType
unfolding details_type
type_of_details none = unknown
type_of_details (some details) = details_type details

unfoldable pub event_type : Event → EventType
unfolding type_of_details
event_type event = type_of_details event.details
