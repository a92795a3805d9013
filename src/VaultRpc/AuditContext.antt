-- ===== src/VaultRpc/AuditContext.antt =====
-- internal/interfaces/vaultrpc/audit_context.go and correlation.go: the interceptor that puts the
-- audit metadata of a request on its context, and its request identifier on the answer. The
-- packages `net`, `net/netip` and `crypto/hmac` are parameters.
pub mod Laws
use canterbury.Base.{
  ℕ, suc, Option, none, some, String, List, [], ◌∷◌, ◌++◌, Bytes, codes, length, ltb, ◌=s=◌,
  if◌then◌else◌,
}
use canterbury.Strings.Trim.{is_empty, trim_space}
use canterbury.Errors.{
  Error, Result, ok, err, message, sentinel, wrap, failure, connect, wrapping, is, Code,
  code_unknown, code_invalid_argument, invalid_request_id, ◌>>=◌,
}
use canterbury.Time.{Time}
use canterbury.Context.{Context, Metadata, with_metadata}
use canterbury.Domain.Audit.{Client, connect_rpc}
use canterbury.Domain.Audit.Identifier.{RequestId, TraceId, new_request_id, new_trace_id}
use canterbury.Service.Exec
use canterbury.Service.Exec.{World, Exec}
use canterbury.Auth.Hash.{hex}
use canterbury.AuditLog.Ulid.{Entropy, new_ulid}
use canterbury.Bearer.{Header, first_value, set_header}
use canterbury.Bearer.Trace.{trace_id_from_header}
use canterbury.VaultRpc.Handlers.{refusal, classify_system_error}

-- `net.SplitHostPort`, of which the host is used, `netip.ParseAddr` with the text of the address
-- that it gives, and the message code of a key and a text.
pub record Network : Type 0 where
  pub split_host_port : Bytes → Option Bytes
  pub parse_addr : Bytes → Result Bytes
  pub hmac : Bytes → Bytes → Bytes

-- The random bytes are those that the system gives when the clock has been read so many times.
pub record AuditContextInterceptor : Type 0 where
  pub clock : ℕ → Time
  pub hmac_key : Bytes
  pub random : ℕ → Result Entropy

unfoldable pub new_audit_context_interceptor :
    (ℕ → Time) → (ℕ → Result Entropy) → Bytes → Result AuditContextInterceptor
new_audit_context_interceptor clock random hmac_key =
    if ltb (length hmac_key) 32
    then err (message "audit HMAC key must be at least 32 bytes")
    else ok (record { clock = clock; hmac_key = hmac_key; random = random })

-- The names of headers in the canonical form in which they are looked up.
abbrev pub header_request_id : Bytes
header_request_id = codes "X-Request-Id"

abbrev pub header_trace_parent : Bytes
header_trace_parent = codes "Traceparent"

abbrev pub header_user_agent : Bytes
header_user_agent = codes "User-Agent"

-- A response of the package `connect`.
pub record Response (A : Type 0) : Type 0 where
  pub msg : A
  pub header : Header

-- `connect.NewResponse`
unfoldable pub new_response : {A : Type 0} → A → Response A
new_response msg = record { msg = msg; header = λ name. [] }

unfoldable pub set_request_id : {A : Type 0} → Response A → RequestId → Response A
set_request_id res id = record res { header = set_header header_request_id id res.header }

unfoldable pub request_id_from_header : Header → Option Bytes
request_id_from_header header =
    let trimmed = trim_space (first_value (header header_request_id)) in
    if is_empty trimmed then none else some trimmed

unfoldable pub generate_request_id : AuditContextInterceptor → Exec RequestId
generate_request_id i w = (
  wrapping "generate new ulid" (new_ulid (i.random w.readings) (i.clock w.readings)) >>= λ id.
      wrapping "wrap generated request ID" (new_request_id (codes "req_" ++ id)),
  record w { readings = suc w.readings },
)

unfoldable pub request_id : AuditContextInterceptor → Header → Exec RequestId
request_id i header w = elim (request_id_from_header header) [
  | none ↦
      let (generated, w') = generate_request_id i w in
      (wrapping "generate request ID" generated, w')
  | some value ↦ (wrapping "wrap provided request ID" (new_request_id value), w)
]

-- An error leaves the empty identifier.
unfoldable pub accepted_trace_id : Result TraceId → TraceId
accepted_trace_id (ok id) = id
accepted_trace_id (err e) = []

unfoldable pub trace_id : (Bytes → Bytes) → Header → Result TraceId
trace_id lower_unicode header =
    elim (trace_id_from_header lower_unicode (first_value (header header_trace_parent))) [
      | none ↦ ok []
      | some value ↦ wrapping "wrap provided trace ID" (new_trace_id value)
    ]

unfoldable pub user_agent_from_header : Header → Bytes
user_agent_from_header header = trim_space (first_value (header header_user_agent))

abbrev host_of : Bytes → Option Bytes → Bytes
host_of remote_address none = remote_address
host_of remote_address (some host) = host

unfoldable pub hash_remote_address : Network → Bytes → Bytes → Result Bytes
hash_remote_address net remote_address key =
    wrapping "parse remote address"
      (net.parse_addr (host_of remote_address (net.split_host_port remote_address)))
    >>= λ addr. ok (codes "hmac-sha256:" ++ hex (net.hmac key addr))

unfoldable pub client : Network → AuditContextInterceptor → Header → Bytes → Result Client
client net i header peer =
    wrapping "hash remote address" (hash_remote_address net peer i.hmac_key) >>= λ hash.
    ok (record {
      interface = connect_rpc;
      user_agent = user_agent_from_header header;
      remote_address_hash = hash;
    })

unfoldable pub handle_audit_interceptor_error : Error → Error
handle_audit_interceptor_error e =
    if is e invalid_request_id
    then refusal code_invalid_argument "request ID is not valid"
    else classify_system_error e

-- The metadata of a connect error.
abbrev pub Meta : Type 0
Meta = List (String × Bytes)

unfoldable pub set_meta : String → Bytes → Meta → Meta
set_meta key value [] = (key, value) ∷ []
set_meta key value ((k, v) ∷ meta) =
    if codes k =s= codes key then (key, value) ∷ meta else (k, v) ∷ set_meta key value meta

abbrev pub meta_request_id : String
meta_request_id = "X-Request-Id"

-- `errors.As` gives the outermost error of the package `connect`, without what is wrapped round it.
unfoldable pub with_request_id_from : Error → RequestId → Error → Error
with_request_id_from whole id (sentinel s) = connect code_unknown whole ((meta_request_id, id) ∷ [])
with_request_id_from whole id (message text) =
    connect code_unknown whole ((meta_request_id, id) ∷ [])
with_request_id_from whole id (wrap text e) = with_request_id_from whole id e
with_request_id_from whole id (failure cause context) = with_request_id_from whole id cause
with_request_id_from whole id (connect code e meta) =
    connect code e (set_meta meta_request_id id meta)

unfoldable pub with_request_id : Error → RequestId → Error
unfolding with_request_id_from
with_request_id e id = with_request_id_from e id e

abbrev pub metadata_of : (Bytes → Bytes) → Header → RequestId → Client → Metadata
metadata_of lower_unicode header id c = record {
  request_id = id;
  trace_id = accepted_trace_id (trace_id lower_unicode header);
  client = c;
}

module _ {A : Type 0} where
  unfoldable pub tag_answer : RequestId → Result (Response A) → Result (Response A)
  tag_answer id (err e) = err (with_request_id e id)
  tag_answer id (ok res) = ok (set_request_id res id)

  module _ (lower_unicode : Bytes → Bytes) (net : Network) (i : AuditContextInterceptor)
      (header : Header) (peer : Bytes) where
    unfoldable pub pass_on :
        (Context → Exec (Response A)) → Context → Result RequestId → Exec (Response A)
    pass_on next ctx (err e) w = (err (handle_audit_interceptor_error e), w)
    pass_on next ctx (ok id) w = elim (client net i header peer) [
      | err e ↦ (err (with_request_id (handle_audit_interceptor_error e) id), w)
      | ok c ↦
          let (answer, w') = next (with_metadata ctx (metadata_of lower_unicode header id c)) w in
          (tag_answer id answer, w')
    ]

    -- `peer` is the address of the client.
    unfoldable pub wrap_audit : (Context → Exec (Response A)) → Context → Exec (Response A)
    wrap_audit next ctx w = let (id, w') = request_id i header w in pass_on next ctx id w'
