-- ===== src/VaultFs/Sort.antt =====
-- internal/adapters/vaultfs/sort.go. `slices.SortFunc` is an insertion sort: results that compare
-- equal have the same path, and the walk finds a path once.
pub mod Laws
use Prim.Native.Nat.{compare, Ordering, lt, eq, gt}
use canterbury.Base.{ℕ, Bool, true, false, List, [], ◌∷◌, Bytes, ltb, ◌=s=◌, if◌then◌else◌}
use canterbury.Errors.{Result, ok, err, sentinel, wrap, invalid_search}
use canterbury.Domain.Vault.Search.{
  SearchNotesQuery, SearchNoteResult, normalized_sort, search_sort_path_asc,
  search_sort_modified_desc,
}

-- `strings.Compare`
unfoldable pub compare_strings : Bytes → Bytes → Ordering
compare_strings [] [] = eq
compare_strings [] (b ∷ t) = lt
compare_strings (a ∷ s) [] = gt
compare_strings (a ∷ s) (b ∷ t) = elim (compare a b) [
  | lt ↦ lt
  | gt ↦ gt
  | eq ↦ compare_strings s t
]

unfoldable pub compare_result_path_asc : SearchNoteResult → SearchNoteResult → Ordering
compare_result_path_asc a b = compare_strings a.ref.path b.ref.path

-- `After` and `Before` of two instants
unfoldable pub compare_result_modified_desc : SearchNoteResult → SearchNoteResult → Ordering
compare_result_modified_desc a b =
    if ltb b.metadata.modified_at a.metadata.modified_at
    then lt
    else if ltb a.metadata.modified_at b.metadata.modified_at
    then gt
    else compare_result_path_asc a b

abbrev pub is_gt : Ordering → Bool
is_gt gt = true
is_gt lt = false
is_gt eq = false

abbrev pub Comparison : Type 0
Comparison = SearchNoteResult → SearchNoteResult → Ordering

unfoldable pub insert :
    Comparison → SearchNoteResult → List SearchNoteResult → List SearchNoteResult
insert cmp x [] = x ∷ []
insert cmp x (y ∷ ys) =
    let rest = insert cmp x ys in if is_gt (cmp x y) then y ∷ rest else x ∷ y ∷ ys

unfoldable pub sort_func : Comparison → List SearchNoteResult → List SearchNoteResult
sort_func cmp [] = []
sort_func cmp (x ∷ xs) = insert cmp x (sort_func cmp xs)

unfoldable pub sort_by_modified_desc : List SearchNoteResult → List SearchNoteResult
sort_by_modified_desc results = sort_func compare_result_modified_desc results

unfoldable pub sort_by_path_asc : List SearchNoteResult → List SearchNoteResult
sort_by_path_asc results = sort_func compare_result_path_asc results

unfoldable pub sort_by_query :
    SearchNotesQuery → Result (List SearchNoteResult → List SearchNoteResult)
sort_by_query query =
    if normalized_sort query =s= search_sort_modified_desc
    then ok sort_by_modified_desc
    else if normalized_sort query =s= search_sort_path_asc
    then ok sort_by_path_asc
    else err (wrap "sort by query" (sentinel invalid_search))
