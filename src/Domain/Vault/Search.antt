-- ===== src/Domain/Vault/Search.antt =====
-- internal/domain/vault/search.go
pub mod Laws
use canterbury.Base.{ℕ, zero, suc, List, Bytes, codes, leb, if◌then◌else◌}
use canterbury.Base.Int.{ℤ, pos, negsuc}
use canterbury.Strings.Trim.{is_empty}
use canterbury.Domain.Vault.Access.{Scope}
use canterbury.Domain.Vault.Note.{NoteRef, NoteMetadata, Tag}

abbrev pub SearchSort : Type 0
SearchSort = Bytes

abbrev pub search_sort_path_asc : SearchSort
search_sort_path_asc = codes "path_asc"

abbrev pub search_sort_modified_desc : SearchSort
search_sort_modified_desc = codes "modified_desc"

abbrev pub default_search_limit : ℕ
default_search_limit = 50

abbrev pub default_search_max_limit : ℕ
default_search_max_limit = 200

pub record TextSearch : Type 0 where
  pub terms : List Bytes

pub record PathFilter : Type 0 where
  pub include_prefixes : List Bytes
  pub exclude_prefixes : List Bytes

pub record TagFilter : Type 0 where
  pub all : List Tag
  pub any : List Tag

pub record AccessFilter : Type 0 where
  pub scopes_all : List Scope
  pub scopes_any : List Scope

pub record SearchNotesQuery : Type 0 where
  pub text : TextSearch
  pub path : PathFilter
  pub tags : TagFilter
  pub access : AccessFilter
  pub limit : ℤ
  pub cursor : Bytes
  pub sort : SearchSort

pub record SearchNoteResult : Type 0 where
  pub ref : NoteRef
  pub metadata : NoteMetadata
  pub snippet : Bytes

pub record SearchNotesPage : Type 0 where
  pub results : List SearchNoteResult
  pub next_cursor : Bytes

-- `Limit <= 0` and `Limit > DefaultSearchMaxLimit` of an `int`
limit_of : ℤ → ℕ
limit_of (negsuc n) = default_search_limit
limit_of (pos zero) = default_search_limit
limit_of (pos (suc n)) =
    if leb (suc n) default_search_max_limit then suc n else default_search_max_limit

unfoldable pub normalized_limit : SearchNotesQuery → ℕ
unfolding limit_of
normalized_limit q = limit_of q.limit

unfoldable pub normalized_sort : SearchNotesQuery → SearchSort
normalized_sort q = if is_empty q.sort then search_sort_path_asc else q.sort
