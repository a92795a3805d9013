-- ===== src/VaultFs/Filters.antt =====
-- The filters of a search: internal/adapters/vaultfs/match.go and match_*.go. A set of strings is
-- a list, which is asked only for its members.
pub mod Sets
pub mod Laws
pub mod Paths
use canterbury.Base.{
  Bool, true, false, ◌&&◌, ◌||◌, not, List, [], ◌∷◌, ◌++◌, Bytes, codes, ◌=s=◌, if◌then◌else◌,
}
use canterbury.Base.Member.{elem}
use canterbury.Strings.Trim.{is_empty, trim_space}
use canterbury.Strings.Affix.{has_prefix, contains, trim_prefix, trim_suffix}
use canterbury.Strings.Case.{to_lower}
use canterbury.Domain.Vault.Access.{Scope}
use canterbury.Domain.Vault.Note.{Note, Tag}
use canterbury.Domain.Vault.Search.{
  TextSearch, PathFilter, TagFilter, AccessFilter, SearchNotesQuery,
}

abbrev pub Matcher : Type 0
Matcher = Note → Bool

abbrev pub is_nil : List Bytes → Bool
is_nil [] = true
is_nil (x ∷ xs) = false

-- `all` of match.go: the matchers are asked in turn.
unfoldable pub all_of : List Matcher → Matcher
all_of [] note = true
all_of (m ∷ ms) note = if m note then all_of ms note else false

abbrev pub always : Matcher
always note = true

abbrev pub negate : Matcher → Matcher
negate m note = not (m note)

unfoldable pub normalize_set : List Bytes → (Bytes → Bytes) → List Bytes
normalize_set [] normalize = []
normalize_set (value ∷ values) normalize =
    let normalized = normalize value in
    let rest = normalize_set values normalize in
    if is_empty normalized then rest else normalized ∷ rest

unfoldable pub contains_all : List Bytes → List Bytes → Bool
contains_all [] candidates = true
contains_all (value ∷ search) candidates =
    if elem value candidates then contains_all search candidates else false

unfoldable pub contains_any : List Bytes → List Bytes → Bool
contains_any [] candidates = false
contains_any (value ∷ search) candidates =
    if elem value candidates then true else contains_any search candidates

-- match_access.go
unfoldable pub normalize_scope_value : Bytes → Bytes
normalize_scope_value value = trim_space value

unfoldable pub contains_all_scopes : List Scope → Matcher
contains_all_scopes scopes note =
    let search = normalize_set scopes normalize_scope_value in
    if is_nil search
    then true
    else contains_all search (normalize_set note.metadata.access.scopes normalize_scope_value)

unfoldable pub contains_some_scopes : List Scope → Matcher
contains_some_scopes scopes note =
    let search = normalize_set scopes normalize_scope_value in
    if is_nil search
    then true
    else contains_any search (normalize_set note.metadata.access.scopes normalize_scope_value)

unfoldable pub match_access : AccessFilter → Matcher
match_access filter =
    all_of (contains_all_scopes filter.scopes_all ∷ contains_some_scopes filter.scopes_any ∷ [])

module _ (lower_unicode : Bytes → Bytes) where
  -- match_strings.go
  unfoldable pub normalize_string : Bytes → Bytes
  normalize_string value = to_lower lower_unicode (trim_space value)

  unfoldable pub normalize_strings : List Bytes → List Bytes
  normalize_strings [] = []
  normalize_strings (value ∷ values) =
      let normalized = normalize_string value in
      let rest = normalize_strings values in if is_empty normalized then rest else normalized ∷ rest

  -- match_tags.go
  unfoldable pub normalize_tag_value : Bytes → Bytes
  normalize_tag_value value = trim_prefix (to_lower lower_unicode (trim_space value)) (codes "#")

  unfoldable pub contains_all_tags : List Tag → Matcher
  contains_all_tags tags note =
      let search = normalize_set tags normalize_tag_value in
      if is_nil search
      then true
      else contains_all search (normalize_set note.metadata.tags normalize_tag_value)

  unfoldable pub contains_some_tags : List Tag → Matcher
  contains_some_tags tags note =
      let search = normalize_set tags normalize_tag_value in
      if is_nil search
      then true
      else contains_any search (normalize_set note.metadata.tags normalize_tag_value)

  unfoldable pub match_tags : TagFilter → Matcher
  match_tags filter = all_of (contains_all_tags filter.all ∷ contains_some_tags filter.any ∷ [])

  -- match_text.go
  unfoldable pub contains_terms : Bytes → List Bytes → Bool
  contains_terms text [] = true
  contains_terms text (term ∷ terms) =
      if contains text term then contains_terms text terms else false

  unfoldable pub match_text : TextSearch → Matcher
  match_text search note =
      let terms = normalize_strings search.terms in
      if is_nil terms then true else contains_terms (to_lower lower_unicode note.content) terms

  -- match_path.go
  unfoldable pub path_matches_prefix : Bytes → Bytes → Bool
  path_matches_prefix path prefix =
      let prefix' = trim_suffix prefix (codes "/") in
      path =s= prefix' || has_prefix path (prefix' ++ codes "/")

  unfoldable pub matches_some_prefix : Bytes → List Bytes → Bool
  matches_some_prefix path [] = false
  matches_some_prefix path (prefix ∷ prefixes) =
      if path_matches_prefix path prefix then true else matches_some_prefix path prefixes

  unfoldable pub match_any_normalized_path_prefix : List Bytes → Matcher
  match_any_normalized_path_prefix prefixes note =
      matches_some_prefix (to_lower lower_unicode note.ref.path) prefixes

  unfoldable pub include_path_prefixes : List Bytes → Matcher
  include_path_prefixes prefixes =
      let normalized = normalize_strings prefixes in
      if is_nil normalized then always else match_any_normalized_path_prefix normalized

  unfoldable pub exclude_path_prefixes : List Bytes → Matcher
  exclude_path_prefixes prefixes =
      negate (match_any_normalized_path_prefix (normalize_strings prefixes))

  unfoldable pub match_path : PathFilter → Matcher
  match_path filter = all_of (
      include_path_prefixes filter.include_prefixes
      ∷ exclude_path_prefixes filter.exclude_prefixes
      ∷ [])

  unfoldable pub match_query : SearchNotesQuery → Matcher
  match_query query = all_of (
      match_text query.text
      ∷ match_path query.path
      ∷ match_tags query.tags
      ∷ match_access query.access
      ∷ [])
