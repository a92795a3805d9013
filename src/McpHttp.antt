-- ===== src/McpHttp.antt =====
-- internal/interfaces/mcphttp: the HTTP handler of the MCP gateway, and the interceptor of the
-- requests that it makes to the vault service. The MCP server between the two is a parameter.
pub mod Laws
use canterbury.Base.{Bool, ◌||◌, Option, none, some, ◌∷◌, Bytes, codes, ◌=s=◌, if◌then◌else◌}
use canterbury.Strings.Trim.{is_empty, trim_space}
use canterbury.Errors.{Result, ok, err, code_unauthenticated}
use canterbury.Bearer.{Header, first_value, set_header, bearer_token, forward_authorization}
use canterbury.Health.Http.{Reply, http_error}
use canterbury.VaultRpc.Handlers.{refusal}
use canterbury.VaultRpc.AuditContext.{header_request_id, header_trace_parent, header_user_agent}

pub record RequestMetadata : Type 0 where
  pub bearer_token : Bytes
  pub request_id : Bytes
  pub trace_parent : Bytes

abbrev pub metadata_from : Bytes → Header → RequestMetadata
metadata_from token header = record {
  bearer_token = token;
  request_id = trim_space (first_value (header header_request_id));
  trace_parent = trim_space (first_value (header header_trace_parent));
}

unfoldable pub unauthorized : Reply
unauthorized =
    let reply = http_error 401 (codes "unauthorized") in
    record reply { headers = (codes "WWW-Authenticate", codes "Bearer") ∷ reply.headers }

-- The next handler takes the metadata that is put on the context of the request.
unfoldable pub require_bearer : (RequestMetadata → Reply) → Header → Reply
require_bearer next header = elim (bearer_token header) [
  | err e ↦ unauthorized
  | ok token ↦ next (metadata_from token header)
]

-- A header that is set where its value is not empty.
unfoldable pub set_filled : Bytes → Bytes → Header → Header
set_filled name value header = if is_empty value then header else set_header name value header

unfoldable pub forwarded_header : Bytes → RequestMetadata → Header → Header
forwarded_header user_agent metadata header = set_filled header_trace_parent metadata.trace_parent (
    set_filled header_request_id metadata.request_id (
      set_header header_user_agent user_agent (forward_authorization metadata.bearer_token header)))

-- `NewForwardMetadataInterceptor`: `none` is a context without metadata.
unfoldable pub forward_metadata {ℓ} :
    {A : Type ℓ} → Bytes → Option RequestMetadata → (Header → Result A) → Header → Result A
forward_metadata user_agent none next header =
    err (refusal code_unauthenticated "missing forwarded authorization")
forward_metadata user_agent (some metadata) next header =
    if is_empty metadata.bearer_token
    then err (refusal code_unauthenticated "missing forwarded authorization")
    else next (forwarded_header user_agent metadata header)

-- The names are those that the generated tools have.
unfoldable pub is_exposed_tool : Bytes → Bytes → Bytes → Bool
is_exposed_tool read_note_tool search_notes_tool name =
    name =s= read_note_tool || name =s= search_notes_tool
