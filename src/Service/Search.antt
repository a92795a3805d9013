-- ===== src/Service/Search.antt =====
-- internal/app/vault/search_notes.go and audit_search.go
pub mod Details
pub mod Released
use canterbury.Base.{List, [], ◌∷◌, Option, none, some, String, Bytes, length, if◌then◌else◌}
use canterbury.Errors.{
  Error, Result, ok, err, sentinel, wrap, is, invalid_search, vault_unavailable,
}
use canterbury.Errors
use canterbury.Time.{Time}
use canterbury.Context.{Context, Principal}
use canterbury.Domain.Vault.Search.{SearchNotesQuery, SearchNoteResult, SearchNotesPage}
use canterbury.Domain.Audit.{
  Event, Outcome, success, failed, error, outcome_ok, permission_denied, invalid_argument,
  unavailable, internal, allow, deny, search_completed, search_failed,
}
use canterbury.Service.Exec.{Service, Exec, ◌>>=◌, ◌>>◌, pure, raise, describe, now, record_event}
use canterbury.Service.Events.{create_event, outcome}
use canterbury.Service.Sanitize.{sanitize_frontmatter}
use canterbury.Service.Read.{
  Classified, reason_repository_error, reason_vault_unavailable, reason_no_matching_scope,
  require_principal,
}
use canterbury.Service.Search.Details.{
  hash_strings, search_query_details, returned_search_result_refs, matched_search_result_scopes,
}

abbrev pub reason_invalid_search_query : String
reason_invalid_search_query = "invalid_search_query"

unfoldable pub classify_search_notes_error : Error → Classified
classify_search_notes_error e =
    if is e invalid_search
    then record { status = failed; code = invalid_argument; reason = reason_invalid_search_query }
    else if is e vault_unavailable
    then record { status = error; code = unavailable; reason = reason_vault_unavailable }
    else if is e Errors.permission_denied
    then record { status = failed; code = permission_denied; reason = reason_no_matching_scope }
    else record { status = error; code = internal; reason = reason_repository_error }

module _ (lower_unicode : Bytes → Bytes) where
  unfoldable pub sanitize_results : List SearchNoteResult → List SearchNoteResult
  sanitize_results [] = []
  sanitize_results (result ∷ results) =
      record result { metadata = sanitize_frontmatter lower_unicode result.metadata }
      ∷ sanitize_results results

  unfoldable pub sanitize_page : SearchNotesPage → SearchNotesPage
  unfolding sanitize_results
  sanitize_page page = record page { results = sanitize_results page.results }

-- The query goes to the repository with the principal's scopes as its access filter, whatever
-- the filter was.
unfoldable pub restrict : Principal → SearchNotesQuery → SearchNotesQuery
restrict principal query = record query {
  access = record { scopes_all = []; scopes_any = principal.scopes };
}

module _ (sha256 : Bytes → Bytes) where
  unfoldable pub search_completed_event :
      Context → Principal → SearchNotesQuery → SearchNotesPage → Time → Outcome → Event
  search_completed_event ctx principal query page started_at result =
      let returned_refs = returned_search_result_refs page.results in
      record (create_event ctx principal started_at) {
        outcome = result;
        policy = record {
          mapping_checksum = principal.mapping_checksum;
          matched_scopes = matched_search_result_scopes page principal.scopes;
          decision = allow;
        };
        details = some (
            search_completed (search_query_details sha256 query) (record {
              count = length page.results;
              returned_refs = returned_refs;
              result_set_hash = hash_strings sha256 returned_refs;
            }));
      }

  unfoldable pub record_search_notes_completed :
      Service → Context → Principal → SearchNotesQuery → SearchNotesPage → Time → Exec Unit
  record_search_notes_completed s ctx principal query page started_at = do
    result ← outcome s started_at success outcome_ok
    describe "record search completed event"
        (record_event s ctx (search_completed_event ctx principal query page started_at result))

  unfoldable pub search_error_event :
      Context → Principal → SearchNotesQuery → Error → Time → Outcome → Event
  search_error_event ctx principal query e started_at result =
      let event = create_event ctx principal started_at in
      let policy = record event.policy { mapping_checksum = principal.mapping_checksum } in
      record event {
        outcome = result;
        policy =
            if is e Errors.permission_denied
            then record policy { decision = deny; matched_scopes = [] }
            else policy;
        details = some (
            search_failed (search_query_details sha256 query)
              (classify_search_notes_error e).reason);
      }

  unfoldable pub record_search_notes_error :
      Service → Context → Principal → SearchNotesQuery → Error → Time → Exec Unit
  record_search_notes_error s ctx principal query e started_at = do
    let classified = classify_search_notes_error e
    result ← outcome s started_at classified.status classified.code
    describe "record search error event"
        (record_event s ctx (search_error_event ctx principal query e started_at result))

  -- The error is recorded and returned.
  unfoldable pub fail_search :
      Service → Context → Principal → SearchNotesQuery → Error → Time → Exec SearchNotesPage
  fail_search s ctx principal query e start_time = do
    describe "record audit log error" (record_search_notes_error s ctx principal query e start_time)
    raise (wrap "search notes" e)

  module _ (lower_unicode : Bytes → Bytes) where
    unfoldable pub search_as :
        Service → Context → Principal → SearchNotesQuery → Time → Exec SearchNotesPage
    search_as s ctx principal query start_time =
        let query' = restrict principal query in
        elim (s.repository.search_notes ctx query') [
          | err e ↦ fail_search s ctx principal query' e start_time
          | ok page ↦ do
            describe "record audit log search"
                (record_search_notes_completed s ctx principal query' page start_time)
            pure (sanitize_page lower_unicode page)
        ]

    unfoldable pub search_notes : Service → Context → SearchNotesQuery → Exec SearchNotesPage
    search_notes s ctx query = do
      start_time ← now s
      principal ← require_principal ctx
      elim principal.scopes [
        | [] ↦ fail_search s ctx principal query (sentinel Errors.permission_denied) start_time
        | _ ∷ _ ↦ search_as s ctx principal query start_time
      ]
