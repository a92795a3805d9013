-- ===== src/VaultRpc/Request.antt =====
-- internal/interfaces/vaultrpc/search_notes.go: the query of a search request. A message that may
-- be nil is an option.
pub mod Laws
use canterbury.Base.{Option, none, some, List, [], ◌∷◌, Bytes, if◌then◌else◌}
use canterbury.Base.Int.{ℤ, pos}
use canterbury.Strings.Trim.{is_empty, trim_space}
use canterbury.Errors.{Result, ok, err, message, wrapping, ◌>>=◌}
use canterbury.Domain.Vault.Note.{Tag, new_tag}
use canterbury.Domain.Vault.Search.{
  SearchNotesQuery, TagFilter, search_sort_path_asc, search_sort_modified_desc,
}

-- An enumeration of the protocol may hold a number that has no name.
pub data SortMessage : Type 0 where
  unspecified path_asc modified_desc : SortMessage
  unrecognized : ℤ → SortMessage

pub record FilterMessage : Type 0 where
  pub include_path_prefixes : List Bytes
  pub exclude_path_prefixes : List Bytes
  pub all_tags : List Bytes
  pub any_tags : List Bytes

-- The query has one field, its text.
pub record SearchNotesRequest : Type 0 where
  pub query : Option Bytes
  pub filter : Option FilterMessage
  pub page_size : ℤ
  pub page_token : Bytes
  pub sort : SortMessage

-- `domainvault.SearchNotesQuery{}`
abbrev pub empty_query : SearchNotesQuery
empty_query = record {
  text = record { terms = [] };
  path = record { include_prefixes = []; exclude_prefixes = [] };
  tags = record { all = []; any = [] };
  access = record { scopes_all = []; scopes_any = [] };
  limit = pos 0;
  cursor = [];
  sort = [];
}

unfoldable pub apply_query : SearchNotesQuery → Option Bytes → SearchNotesQuery
apply_query query none = query
apply_query query (some text) =
    let term = trim_space text in
    if is_empty term then query else record query { text = record { terms = term ∷ [] } }

unfoldable pub strings_to_tags : List Bytes → Result (List Tag)
strings_to_tags [] = ok []
strings_to_tags (value ∷ values) =
    let rest = strings_to_tags values in
    wrapping "parsing tag" (new_tag value) >>= λ tag. rest >>= λ tags. ok (tag ∷ tags)

unfoldable pub apply_filter : SearchNotesQuery → Option FilterMessage → Result SearchNotesQuery
apply_filter query none = ok query
apply_filter query (some filter) =
    wrapping "build query tags \"all\"" (strings_to_tags filter.all_tags) >>= λ all.
    wrapping "build query tags \"any\"" (strings_to_tags filter.any_tags) >>= λ any.
    ok (record query {
      path = record {
        include_prefixes = filter.include_path_prefixes;
        exclude_prefixes = filter.exclude_path_prefixes;
      };
      tags = record { all = all; any = any };
    })

unfoldable pub apply_sort : SearchNotesQuery → SortMessage → Result SearchNotesQuery
apply_sort query modified_desc = ok (record query { sort = search_sort_modified_desc })
apply_sort query path_asc = ok (record query { sort = search_sort_path_asc })
apply_sort query unspecified = ok (record query { sort = search_sort_path_asc })
apply_sort query (unrecognized n) = err (message "unrecognized sort order")

unfoldable pub proto_to_search_notes_query : SearchNotesRequest → Result SearchNotesQuery
proto_to_search_notes_query msg =
    wrapping "apply filter" (apply_filter (apply_query empty_query msg.query) msg.filter)
    >>= λ filtered. wrapping "apply sort" (apply_sort filtered msg.sort) >>= λ sorted.
        ok (record sorted { cursor = msg.page_token; limit = msg.page_size })
