-- ===== src/McpHttp/Laws.antt =====
-- What the vault service reads of the requests that the gateway makes.
use canterbury.Base.{some, [], Bytes, ◌≡◌, refl, ap, ◌∙◌, arith, inl, inr, ◌=s=◌, ◌⊎◌}
use canterbury.Strings.Trim.{trim_space}
use canterbury.Strings.Trim.Laws.{trim_space_idem}
use canterbury.Errors.{Error, Result, ok, err, Result-cases}
use canterbury.Health.Http.{Reply}
use canterbury.Bearer.{
  Header, first_value, set_header, authorization, bearer_token, bearer_token_from_header,
  forward_authorization, service_value,
}
use canterbury.Bearer.Forwarded.{gateway_value-IsToken, bearer_token-forward_authorization}
use canterbury.Bearer.Trace.{trace_id_from_header}
use canterbury.VaultRpc.AuditContext.{
  header_request_id, header_trace_parent, header_user_agent, request_id_from_header, trace_id,
  user_agent_from_header,
}
use canterbury.McpHttp.{
  RequestMetadata, metadata_from, unauthorized, require_bearer, set_filled, forwarded_header,
  forward_metadata,
}

-- A request that has no headers yet.
abbrev pub new_request : Header
new_request name = []

module _ (user_agent : Bytes) (m : RequestMetadata) where
  sent : Header
  sent = forwarded_header user_agent m new_request

  sent-authorization :
      sent authorization ≡ forward_authorization m.bearer_token new_request authorization
  unfolding sent forwarded_header set_filled set_header ◌=s=◌
  sent-authorization = ground arith

  sent_user_agent : first_value (sent header_user_agent) ≡ user_agent
  unfolding sent forwarded_header set_filled set_header ◌=s=◌
  sent_user_agent = ground arith

  sent_request_id : first_value (sent header_request_id) ≡ m.request_id
  unfolding sent forwarded_header set_filled set_header ◌=s=◌ forward_authorization
  sent_request_id = ground arith

  sent_trace_parent : first_value (sent header_trace_parent) ≡ m.trace_parent
  unfolding sent forwarded_header set_filled set_header ◌=s=◌ forward_authorization
  sent_trace_parent = ground arith

-- The vault service reads of the second header the token, and what the gateway's client sent in the
-- first.
pub record IsForwarded (lower_unicode : Bytes → Bytes) (user_agent token : Bytes)
    (header onward : Header) : Type 0 where
  pub bearer : bearer_token_from_header onward ≡ ok token
  pub request_id : request_id_from_header onward ≡ request_id_from_header header
  pub trace : trace_id lower_unicode onward ≡ trace_id lower_unicode header
  pub agent : user_agent_from_header onward ≡ trim_space user_agent

trace_id_from-trimmed :
    (lower_unicode : Bytes → Bytes) (value : Bytes)
    → trace_id_from_header lower_unicode (trim_space value)
      ≡ trace_id_from_header lower_unicode value
unfolding trace_id_from_header
trace_id_from-trimmed lower_unicode value = rw (trim_space_idem value) refl

sent-IsForwarded :
    (lower_unicode : Bytes → Bytes) (user_agent token : Bytes) (header : Header)
    → bearer_token header ≡ ok token
    → IsForwarded lower_unicode user_agent token header
        (sent user_agent (metadata_from token header))
unfolding bearer_token_from_header request_id_from_header trace_id user_agent_from_header
sent-IsForwarded lower_unicode user_agent token header h =
    let m = metadata_from token header in
    record {
      bearer =
          ap service_value (sent-authorization user_agent m)
          ∙ bearer_token-forward_authorization header new_request h;
      request_id =
          rw (sent_request_id user_agent m)
            (rw (trim_space_idem (first_value (header header_request_id))) refl);
      trace =
          rw (trace_id, sent_trace_parent user_agent m)
            (rw (trace_id_from-trimmed lower_unicode (first_value (header header_trace_parent)))
              refl);
      agent = ap trim_space (sent_user_agent user_agent m);
    }

module _ {A : Type 0} (lower_unicode : Bytes → Bytes) (user_agent : Bytes)
    (next : RequestMetadata → Reply) (call : Header → Result A) (header : Header) where
  -- The gateway answers a request without a proper bearer token itself. Else the MCP server runs with
  -- metadata for which a call to the vault service is made, and the vault service reads of that call
  -- the token, the request identifier and the trace identifier that it would read of the request
  -- to the gateway, and the gateway's user agent.
  pub require_bearer-IsForwarded :
      ((e : Error) × (bearer_token header ≡ err e) × (require_bearer next header ≡ unauthorized))
      ⊎ ((token : Bytes) × (metadata : RequestMetadata) × (onward : Header) × (bearer_token header
            ≡ ok token)
          × (require_bearer next header ≡ next metadata)
          × (forward_metadata user_agent (some metadata) call new_request ≡ call onward)
          × IsForwarded lower_unicode user_agent token header onward)
  unfolding require_bearer forward_metadata sent bearer_token
  require_bearer-IsForwarded = elim (Result-cases (bearer_token header)) [
    | inr (e, h) ↦ inl (e, h, rw (h, require_bearer) refl)
    | inl (token, h) ↦
        let t = gateway_value-IsToken (header authorization) h in
        inr (
          token,
          metadata_from token header,
          sent user_agent (metadata_from token header),
          h,
          rw (h, require_bearer) refl,
          rw t.filled refl,
          sent-IsForwarded lower_unicode user_agent token header h,
        )
  ]
