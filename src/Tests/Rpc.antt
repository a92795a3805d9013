-- ===== src/Tests/Rpc.antt =====
-- The handlers of the vault service, over the service and its directory with one note.
use canterbury.Base.{◌⊎◌, none, some, List, [], ◌∷◌, Bytes, codes, ◌≡◌, refl}
use canterbury.Base.Int.{pos}
use canterbury.Strings.Trim.{trimming}
use canterbury.Time.{Time}
use canterbury.Context.{Context, background}
use canterbury.Domain.Vault.Note.{Value, new_tag}
use canterbury.Domain.Vault.Search.{SearchNotesQuery}
use canterbury.Service.Exec.{Exec}
use canterbury.VaultFs.Released.{file_service}
use canterbury.Errors.{ok, err, Error, wrap, sentinel, permission_denied}
use canterbury.VaultRpc.Request.{
  SearchNotesRequest, FilterMessage, apply_query, strings_to_tags, apply_filter, apply_sort,
  proto_to_search_notes_query, unspecified,
}
use canterbury.VaultRpc.Request.Laws.{IsRequested, proto_to_search_notes_query-IsRequested}
use canterbury.VaultRpc.Message.{Protocol}
use canterbury.VaultRpc.Handlers.{
  VaultServiceHandler, SearchNotesResponse, handle_read_note, handle_search_notes,
}
use canterbury.VaultRpc.Laws.{IsAnswer, IsOpaque, handlers-IsAnswer}
use canterbury.VaultRpc.AuthContext.{AuthContextInterceptor, wrap_unary}
use canterbury.VaultRpc.AuthContext.Laws.{IsPassed, IsRefused, wrap_unary-IsGuarded}
use canterbury.Bearer.{Header}
use canterbury.VaultRpc.Released.{vault_application}
use canterbury.Tests.Released.{same_bytes, yaml, files, vault, tree, alice, request, start}

abbrev pub proto : Protocol
proto = record {
  Struct = List (Bytes × Value);
  Timestamp = Time;
  format_nano = λ t. codes "0001-01-01T00:00:00Z";
  new_struct = λ fields. ok fields;
  new_timestamp = λ t. t;
}

abbrev filter : FilterMessage
filter = record {
  include_path_prefixes = [];
  exclude_path_prefixes = codes "drafts" ∷ [];
  all_tags = codes " work " ∷ [];
  any_tags = [];
}

abbrev tagged : SearchNotesRequest
tagged = record {
  query = some (codes " plan ");
  filter = some filter;
  page_size = pos 10;
  page_token = [];
  sort = unspecified;
}

abbrev tagged_query : SearchNotesQuery
tagged_query = record {
  text = record { terms = codes "plan" ∷ [] };
  path = record { include_prefixes = []; exclude_prefixes = codes "drafts" ∷ [] };
  tags = record { all = codes "work" ∷ []; any = [] };
  access = record { scopes_all = []; scopes_any = [] };
  limit = pos 10;
  cursor = [];
  sort = codes "path_asc";
}

accepted : proto_to_search_notes_query tagged ≡ ok tagged_query
unfolding proto_to_search_notes_query apply_query apply_filter strings_to_tags apply_sort new_tag
    trimming
accepted = refl

proto_to_search_notes_query-IsRequested_example : IsRequested tagged tagged_query
proto_to_search_notes_query-IsRequested_example =
    proto_to_search_notes_query-IsRequested tagged accepted

abbrev denied : Error
denied = wrap "record audit log denied" (sentinel permission_denied)

abbrev pub everything : SearchNotesRequest
everything = record {
  query = none;
  filter = none;
  page_size = pos 0;
  page_token = [];
  sort = unspecified;
}

abbrev handler : VaultServiceHandler
handler = record {
  vault =
      vault_application same_bytes same_bytes
        (file_service same_bytes files yaml vault tree (λ ctx e. none) (λ n. n));
}

handlers-IsAnswer_example :
    IsAnswer (handle_read_note same_bytes proto handler request (some (codes "a.md")) start).0
    × IsAnswer (handle_search_notes proto handler request everything start).0
handlers-IsAnswer_example =
    handlers-IsAnswer same_bytes proto handler request (some (codes "a.md")) everything start

abbrev guard : AuthContextInterceptor
guard = record {
  authenticator = record { authenticate = λ ctx token. ok alice; mapping_checksum = [] };
  audit_log = λ ctx e. none;
  clock = λ n. n;
}

abbrev header : Header
header name = codes "Bearer abc" ∷ []

abbrev search_all : Context → Exec (SearchNotesResponse proto)
search_all ctx = handle_search_notes proto handler ctx everything

wrap_unary-IsGuarded_example :
    IsPassed guard header background search_all start
      (wrap_unary guard header search_all background start)
    ⊎ (IsRefused guard header background start (wrap_unary guard header search_all background start)
        × ((e : Error) × ((wrap_unary guard header search_all background start).0 ≡ err e)
            × IsOpaque e))
wrap_unary-IsGuarded_example = wrap_unary-IsGuarded guard header background search_all start
