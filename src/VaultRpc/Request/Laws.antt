-- ===== src/VaultRpc/Request/Laws.antt =====
-- What a search request can ask for: internal/interfaces/vaultrpc/search_notes.go
use canterbury.Base.{
  Option, none, some, List, [], ◌∷◌, Bytes, ◌≡◌, refl, ◌⊎◌, inl, inr, All, Bool-cases, false, arith,
  subst, sym, ◌∙◌,
}
use canterbury.Strings.Trim.{is_empty, trim_space}
use canterbury.Errors.{ok, wrapping-eq-ok, >>=-eq-ok, ok-inj, err≢ok, wrapping}
use canterbury.Domain.Vault.Note.{new_tag}
use canterbury.Domain.Vault.Search.{
  SearchNotesQuery, TagFilter, search_sort_path_asc, search_sort_modified_desc,
}
use canterbury.VaultRpc.Request.{
  SearchNotesRequest, SortMessage, FilterMessage, empty_query, apply_query, strings_to_tags,
  apply_filter, apply_sort, proto_to_search_notes_query, unspecified, path_asc, modified_desc,
  unrecognized,
}

abbrev pub NotBlank : List Bytes → Type 0
NotBlank values = All (λ value. is_empty value ≡ false) values

-- A query without blanks that leaves the choice of scopes to the service.
pub record IsRequested (msg : SearchNotesRequest) (q : SearchNotesQuery) : Type 0 where
  pub no_access : q.access ≡ record { scopes_all = []; scopes_any = [] }
  pub limit : q.limit ≡ msg.page_size
  pub cursor : q.cursor ≡ msg.page_token
  pub terms : NotBlank q.text.terms
  pub tags_all : NotBlank q.tags.all
  pub tags_any : NotBlank q.tags.any
  pub sort : (q.sort ≡ search_sort_path_asc) ⊎ (q.sort ≡ search_sort_modified_desc)

new_tag-NotBlank : (value : Bytes) {tag : Bytes} → new_tag value ≡ ok tag → is_empty tag ≡ false
unfolding new_tag
new_tag-NotBlank value h = elim (Bool-cases (is_empty (trim_space value))) [
  | inl blank ↦ absurd (ground arith)
  | inr named ↦ ground arith
]

strings_to_tags-NotBlank :
    (values : List Bytes) {tags : List Bytes} → strings_to_tags values ≡ ok tags → NotBlank tags
unfolding strings_to_tags
strings_to_tags-NotBlank [] h = subst NotBlank (ok-inj h) tt
strings_to_tags-NotBlank (value ∷ values) h =
    let (tag, e, h') = >>=-eq-ok (wrapping "parsing tag" (new_tag value)) _ h in
    let (tags, e', h'') = >>=-eq-ok (strings_to_tags values) _ h' in
    subst NotBlank (ok-inj h'')
      (new_tag-NotBlank value (wrapping-eq-ok _ _ e), strings_to_tags-NotBlank values e')

apply_query-NotBlank : (text : Option Bytes) → NotBlank (apply_query empty_query text).text.terms
unfolding apply_query
apply_query-NotBlank none = tt
apply_query-NotBlank (some text) = elim (Bool-cases (is_empty (trim_space text))) [
  | inl blank ↦ rw blank tt
  | inr named ↦ rw named (named, tt)
]

apply_query-tags : (text : Option Bytes) → (apply_query empty_query text).tags ≡ empty_query.tags
unfolding apply_query
apply_query-tags none = refl
apply_query-tags (some text) = elim (Bool-cases (is_empty (trim_space text))) [
  | inl blank ↦ rw blank refl
  | inr named ↦ rw named refl
]

apply_query-access :
    (text : Option Bytes)
    → (apply_query empty_query text).access ≡ record { scopes_all = []; scopes_any = [] }
unfolding apply_query
apply_query-access none = refl
apply_query-access (some text) = elim (Bool-cases (is_empty (trim_space text))) [
  | inl blank ↦ rw blank refl
  | inr named ↦ rw named refl
]

apply_filter-IsRequested :
    (query : SearchNotesQuery) (filter : Option FilterMessage) {q : SearchNotesQuery}
    → NotBlank query.tags.all
    → NotBlank query.tags.any
    → apply_filter query filter ≡ ok q
    → (q.access ≡ query.access)
      × (q.text.terms ≡ query.text.terms)
      × NotBlank q.tags.all
      × NotBlank q.tags.any
unfolding apply_filter
apply_filter-IsRequested query none all any h =
    subst
      (λ (k : SearchNotesQuery).
        (k.access ≡ query.access)
        × (k.text.terms ≡ query.text.terms)
        × NotBlank k.tags.all
        × NotBlank k.tags.any)
      (ok-inj h) (refl, refl, all, any)
apply_filter-IsRequested query (some filter) all any h =
    let (tags_all, e, h') =
      >>=-eq-ok (wrapping "build query tags \"all\"" (strings_to_tags filter.all_tags)) _ h in
    let (tags_any, e', h'') =
      >>=-eq-ok (wrapping "build query tags \"any\"" (strings_to_tags filter.any_tags)) _ h' in
    subst
      (λ (k : SearchNotesQuery).
        (k.access ≡ query.access)
        × (k.text.terms ≡ query.text.terms)
        × NotBlank k.tags.all
        × NotBlank k.tags.any)
      (ok-inj h'')
      (
        refl,
        refl,
        strings_to_tags-NotBlank filter.all_tags (wrapping-eq-ok _ _ e),
        strings_to_tags-NotBlank filter.any_tags (wrapping-eq-ok _ _ e'),
      )

abbrev KeepsAllButSort : SearchNotesQuery → SearchNotesQuery → Type 0
KeepsAllButSort query q =
    (q.access ≡ query.access)
    × (q.text.terms ≡ query.text.terms)
    × (q.tags ≡ query.tags)
    × ((q.sort ≡ search_sort_path_asc) ⊎ (q.sort ≡ search_sort_modified_desc))

apply_sort-KeepsAllButSort :
    (query : SearchNotesQuery) (sort : SortMessage) {q : SearchNotesQuery}
    → apply_sort query sort ≡ ok q
    → KeepsAllButSort query q
unfolding apply_sort
apply_sort-KeepsAllButSort query unspecified h =
    subst (KeepsAllButSort query) (ok-inj h) (refl, refl, refl, inl refl)
apply_sort-KeepsAllButSort query path_asc h =
    subst (KeepsAllButSort query) (ok-inj h) (refl, refl, refl, inl refl)
apply_sort-KeepsAllButSort query modified_desc h =
    subst (KeepsAllButSort query) (ok-inj h) (refl, refl, refl, inr refl)
apply_sort-KeepsAllButSort query (unrecognized n) h = absurd (err≢ok h)

-- A search request that is accepted becomes a query that asks for no scopes, with the limit and
-- the cursor of the request, whose terms and tags are not empty, and whose order is one of the two
-- that the repository knows.
pub proto_to_search_notes_query-IsRequested :
    (msg : SearchNotesRequest) {q : SearchNotesQuery}
    → proto_to_search_notes_query msg ≡ ok q
    → IsRequested msg q
unfolding proto_to_search_notes_query
proto_to_search_notes_query-IsRequested msg h =
    let (filtered, e, h') =
      >>=-eq-ok
        (wrapping "apply filter" (apply_filter (apply_query empty_query msg.query) msg.filter)) _
        h in
    let (sorted, e', h'') = >>=-eq-ok (wrapping "apply sort" (apply_sort filtered msg.sort)) _ h' in
    let (access, terms, all, any) =
      apply_filter-IsRequested (apply_query empty_query msg.query) msg.filter
        (subst (λ (k : TagFilter). NotBlank k.all) (sym (apply_query-tags msg.query)) tt)
        (subst (λ (k : TagFilter). NotBlank k.any) (sym (apply_query-tags msg.query)) tt)
        (wrapping-eq-ok _ _ e) in
    let (access', terms', tags', sort) =
      apply_sort-KeepsAllButSort filtered msg.sort (wrapping-eq-ok _ _ e') in
    subst (IsRequested msg) (ok-inj h'') (record {
      no_access = access' ∙ access ∙ apply_query-access msg.query;
      limit = refl;
      cursor = refl;
      terms = subst NotBlank (sym (terms' ∙ terms)) (apply_query-NotBlank msg.query);
      tags_all = subst (λ (k : TagFilter). NotBlank k.all) (sym tags') all;
      tags_any = subst (λ (k : TagFilter). NotBlank k.any) (sym tags') any;
      sort = sort;
    })
