-- ===== src/Service/Search/Details.antt =====
-- internal/app/vault/audit_search.go: what an event records of a search and of its results. The
-- terms and the page token are recorded as hashes only.
use canterbury.Base.{
  Bool, true, false, List, [], ◌∷◌, ◌++◌, Option, none, some, Bytes, codes, if◌then◌else◌,
}
use canterbury.Base.Member.{elem}
use canterbury.Strings.Trim.{is_empty, trim_space}
use canterbury.Auth.Hash.{hex}
use canterbury.Domain.Vault.Access.{Scope, matched_scopes}
use canterbury.Domain.Vault.Note.{Tag}
use canterbury.Domain.Vault.Search.{
  SearchNotesQuery, SearchNoteResult, SearchNotesPage, normalized_limit,
}
use canterbury.Domain.Audit.{QueryDetails}

-- Each value, followed by a zero byte.
terminated : List Bytes → Bytes
terminated [] = []
terminated (value ∷ values) = value ++ 0 ∷ terminated values

unfoldable pub strings_from_tags : List Tag → List Bytes
strings_from_tags [] = []
strings_from_tags (tag ∷ tags) =
    let normalized = trim_space tag in
    let rest = strings_from_tags tags in if is_empty normalized then rest else normalized ∷ rest

has_any {ℓ} : {A : Type ℓ} → List A → Bool
has_any [] = false
has_any (x ∷ xs) = true

module _ (sha256 : Bytes → Bytes) where
  unfoldable pub hash_strings : List Bytes → Bytes
  unfolding terminated
  hash_strings values = codes "sha256:" ++ hex (sha256 (terminated values))

  unfoldable pub hash_string_ptr : Bytes → Option Bytes
  hash_string_ptr value =
      let normalized = trim_space value in
      if is_empty normalized then none else some (hash_strings (normalized ∷ []))

  unfoldable pub hash_strings_ptr : List Bytes → Option Bytes
  hash_strings_ptr [] = none
  hash_strings_ptr (value ∷ values) = some (hash_strings (value ∷ values))

  unfoldable pub search_query_details : SearchNotesQuery → QueryDetails
  unfolding has_any
  search_query_details query = record {
    text_hash = hash_strings_ptr query.text.terms;
    has_text = has_any query.text.terms;
    include_path_prefixes = query.path.include_prefixes;
    exclude_path_prefixes = query.path.exclude_prefixes;
    all_tags = strings_from_tags query.tags.all;
    any_tags = strings_from_tags query.tags.any;
    page_size = normalized_limit query;
    page_token_hash = hash_string_ptr query.cursor;
  }

unfoldable pub returned_search_result_refs : List SearchNoteResult → List Bytes
returned_search_result_refs [] = []
returned_search_result_refs (result ∷ results) =
    result.ref.path ∷ returned_search_result_refs results

-- The inner loop: the keys of `seen` are the scopes of `matches`, and the set is kept as such.
add_scopes : List Scope → List Scope → List Scope
add_scopes matches [] = matches
add_scopes matches (scope ∷ scopes) =
    add_scopes (if elem scope matches then matches else matches ++ scope ∷ []) scopes

add_results : List Scope → List Scope → List SearchNoteResult → List Scope
add_results principal_scopes matches [] = matches
add_results principal_scopes matches (result ∷ results) =
    add_results principal_scopes
      (add_scopes matches (matched_scopes result.metadata.access principal_scopes)) results

unfoldable pub matched_search_result_scopes : SearchNotesPage → List Scope → List Scope
unfolding add_scopes add_results
matched_search_result_scopes page principal_scopes = add_results principal_scopes [] page.results
