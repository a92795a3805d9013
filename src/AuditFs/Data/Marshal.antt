-- ===== src/AuditFs/Data/Marshal.antt =====
-- The JSON of an event: the tags of internal/adapters/auditfs/event_data.go and of the details in
-- internal/app/vault.
use canterbury.Base.{ℕ, Option, none, some, String, List, Bytes, codes, leb, if◌then◌else◌}
use canterbury.Base.Int.{pos}
use canterbury.Strings.Trim.{is_empty}
use canterbury.Errors.{Result, ok, err, message}
use canterbury.Time.Civil.{date_of, rfc3339_nano}
use canterbury.Domain.Audit.{
  Client, Outcome, AuditedRef, QueryDetails, ResultsDetails, EventDetails, read_allowed,
  read_denied, read_failed, search_completed, search_failed, authentication_failed,
}
use canterbury.Encoding.Json.{
  Json, Members, null, boolean, number, string, array, object, end, member, strings,
}
use canterbury.AuditFs.Data.{
  ActorData, EventData, PolicyData, code_text, interface_text, status_text,
}

abbrev text_member : String → Bytes → Members → Members
text_member key value members = member (codes key) (string value) members

-- A field with `omitempty`.
unfoldable pub non_empty_member : String → Bytes → Members → Members
non_empty_member key value members =
    if is_empty value then members else text_member key value members

abbrev list_member : String → List Bytes → Members → Members
list_member key values members = member (codes key) (array (strings values)) members

abbrev option_json : Option Bytes → Json
option_json none = null
option_json (some value) = string value

unfoldable pub ref_json : AuditedRef → Json
ref_json ref = object (text_member "path" ref.path (text_member "title" ref.title end))

unfoldable pub query_json : QueryDetails → Json
query_json query = object (
    member (codes "text_hash") (option_json query.text_hash) (
      member (codes "has_text") (boolean query.has_text) (
        list_member "include_path_prefixes" query.include_path_prefixes (
          list_member "exclude_path_prefixes" query.exclude_path_prefixes (
            list_member "all_tags" query.all_tags (
              list_member "any_tags" query.any_tags (
                member (codes "page_size") (number (pos query.page_size))
                  (member (codes "page_token_hash") (option_json query.page_token_hash) end))))))))

unfoldable pub results_json : ResultsDetails → Json
results_json results = object (
    member (codes "count") (number (pos results.count)) (
      list_member "returned_refs" results.returned_refs
        (text_member "result_set_hash" results.result_set_hash end)))

unfoldable pub details_json : Option EventDetails → Json
details_json none = null
details_json (some (read_allowed ref resource_scopes content_bytes)) = object (
    member (codes "note_ref") (ref_json ref) (
      list_member "resource_scopes" resource_scopes
        (member (codes "content_bytes") (number (pos content_bytes)) end)))
details_json (some (read_denied ref resource_scopes reason)) = object (
    member (codes "note_ref") (ref_json ref)
      (list_member "resource_scopes" resource_scopes (text_member "reason" (codes reason) end)))
details_json (some (read_failed ref reason)) =
    object (member (codes "note_ref") (ref_json ref) (text_member "reason" (codes reason) end))
details_json (some (search_completed query results)) = object (
    member (codes "query") (query_json query) (member (codes "results") (results_json results) end))
details_json (some (search_failed query reason)) =
    object (member (codes "query") (query_json query) (text_member "reason" (codes reason) end))
details_json (some (authentication_failed reason)) =
    object (text_member "reason" (codes reason) end)

unfoldable pub client_json : Client → Json
client_json client = object (
    text_member "interface" (interface_text client.interface) (
      text_member "user_agent" client.user_agent
        (non_empty_member "remote_addr_hash" client.remote_address_hash end)))

unfoldable pub actor_json : ActorData → Json
actor_json actor = object (
    text_member "issuer" actor.issuer
      (text_member "subject_hash" actor.subject_hash (list_member "scopes" actor.scopes end)))

unfoldable pub policy_json : PolicyData → Json
policy_json policy = object (
    non_empty_member "mapping_checksum" policy.mapping_checksum (
      list_member "matched_scopes" policy.matched_scopes
        (text_member "decision" policy.decision end)))

unfoldable pub outcome_json : Outcome → Json
outcome_json outcome = object (
    text_member "status" (status_text outcome.status) (
      text_member "code" (code_text outcome.code)
        (member (codes "duration_ns") (number outcome.duration) end)))

abbrev pub schema_version : ℕ
schema_version = 1

unfoldable pub event_members : EventData → Members
event_members data' = text_member "id" data'.id (
    member (codes "schema_version") (number (pos schema_version)) (
      text_member "occurred_at" (rfc3339_nano data'.occurred_at) (
        text_member "event_type" data'.event_type (
          non_empty_member "request_id" data'.request_id (
            non_empty_member "trace_id" data'.trace_id (
              member (codes "actor") (actor_json data'.actor) (
                member (codes "client") (client_json data'.client) (
                  member (codes "policy") (policy_json data'.policy) (
                    member (codes "outcome") (outcome_json data'.outcome)
                      (member (codes "details") (details_json data'.details) end))))))))))

-- An instant marshals up to the year 9999 only.
unfoldable pub event_json : EventData → Result Json
event_json data' =
    if leb (date_of data'.occurred_at).year 9999
    then ok (object (event_members data'))
    else err (message "year outside of range [0,9999]")
