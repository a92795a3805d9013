-- ===== src/VaultRpc/Handlers.antt =====
-- internal/interfaces/vaultrpc/vault_service.go, error.go, and the handlers of read_note.go and
-- search_notes.go. The lines that only write to the debugging log are left out.
use canterbury.Base.{String, Option, none, some, List, [], Bytes, if◌then◌else◌}
use canterbury.Errors.{
  Error, Result, ok, err, message, connect, is, Code, code_canceled, code_unknown,
  code_invalid_argument, code_deadline_exceeded, code_not_found, code_permission_denied,
  code_unavailable, code_unauthenticated, vault_unavailable, missing_principal, canceled,
  deadline_exceeded, note_not_found, permission_denied, invalid_note_path, invalid_search,
}
use canterbury.Context.{Context}
use canterbury.Domain.Vault.Note.{Note, NotePath}
use canterbury.Domain.Vault.NotePath.{new_note_path}
use canterbury.Domain.Vault.Search.{SearchNotesQuery, SearchNotesPage}
use canterbury.Service.Exec.{Exec}
use canterbury.VaultRpc.Request.{SearchNotesRequest, proto_to_search_notes_query}
use canterbury.VaultRpc.Message.{
  Protocol, NoteMessage, ResultMessage, note_to_proto, search_results_to_proto,
}

-- What the handlers use of the vault: the methods of the service.
pub record VaultApplication : Type 0 where
  pub read_note : Context → NotePath → Exec Note
  pub search_notes : Context → SearchNotesQuery → Exec SearchNotesPage

pub record VaultServiceHandler : Type 0 where
  pub vault : VaultApplication

unfoldable pub new_vault_service_handler : Option VaultApplication → Result VaultServiceHandler
new_vault_service_handler none = err (message "vault application service is required")
new_vault_service_handler (some vault) = ok (record { vault = vault })

-- `connect.NewError` of an error that is a text
abbrev pub refusal : Code → String → Error
refusal code text = connect code (message text) []

unfoldable pub classify_system_error : Error → Error
classify_system_error e =
    if is e vault_unavailable
    then refusal code_unavailable "vault cannot be accessed; try again later"
    else if is e missing_principal
    then refusal code_unauthenticated "missing authentication"
    else if is e canceled
    then refusal code_canceled "request canceled"
    else if is e deadline_exceeded
    then refusal code_deadline_exceeded "deadline exceeded"
    else refusal code_unknown "an unknown error occurred"

unfoldable pub classify_read_error : Error → Error
classify_read_error e =
    if is e note_not_found
    then refusal code_not_found "requested note not found"
    else if is e permission_denied
    then refusal code_permission_denied "permission denied; check your authorization scopes"
    else if is e invalid_note_path
    then refusal code_invalid_argument "invalid note path"
    else classify_system_error e

unfoldable pub classify_search_error : Error → Error
classify_search_error e =
    if is e invalid_search
    then refusal code_invalid_argument "invalid search query"
    else if is e permission_denied
    then refusal code_permission_denied "permission denied; check your authorization scopes"
    else classify_system_error e

module _ (p : Protocol) where
  pub record SearchNotesResponse : Type 0 where
    pub results : List (ResultMessage p)
    pub next_page_token : Bytes

  unfoldable pub note_answer : Result (NoteMessage p) → Result (NoteMessage p)
  note_answer (err e) = err (refusal code_unknown "unexpected error building note message")
  note_answer (ok note) = ok note

  unfoldable pub read_answer : Result Note → Result (NoteMessage p)
  read_answer (err e) = err (classify_read_error e)
  read_answer (ok note) = note_answer (note_to_proto p note)

  unfoldable pub page_answer : Bytes → Result (List (ResultMessage p)) → Result SearchNotesResponse
  page_answer next_cursor (err e) = err (refusal code_unknown "unexpected error building results")
  page_answer next_cursor (ok results) =
      ok (record { results = results; next_page_token = next_cursor })

  unfoldable pub search_answer : Result SearchNotesPage → Result SearchNotesResponse
  search_answer (err e) = err (classify_search_error e)
  search_answer (ok page) = page_answer page.next_cursor (search_results_to_proto p page.results)

  unfoldable pub handle_search_notes :
      VaultServiceHandler → Context → SearchNotesRequest → Exec SearchNotesResponse
  handle_search_notes h ctx req w = elim (proto_to_search_notes_query req) [
    | err e ↦ (err (refusal code_invalid_argument "invalid query; please check and try again"), w)
    | ok query ↦ let (result, w') = h.vault.search_notes ctx query w in (search_answer result, w')
  ]

module _ (lower_unicode : Bytes → Bytes) (p : Protocol) where
  -- The request has one field, the reference, which may be nil; the response has one, the note.
  unfoldable pub handle_read_note :
      VaultServiceHandler → Context → Option Bytes → Exec (NoteMessage p)
  handle_read_note h ctx none w =
      (err (refusal code_invalid_argument "ref is a required parameter"), w)
  handle_read_note h ctx (some value) w = elim (new_note_path lower_unicode value) [
    | err e ↦ (err (refusal code_invalid_argument "ref must contain a valid path"), w)
    | ok path ↦ let (result, w') = h.vault.read_note ctx path w in (read_answer p result, w')
  ]
