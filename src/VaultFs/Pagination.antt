-- ===== src/VaultFs/Pagination.antt =====
-- internal/adapters/vaultfs/pagination.go
pub mod Pages
use canterbury.Base.{
  ℕ, suc, zero, ◌+◌, ◌-◌, Option, none, some, List, [], Bytes, length, take, drop, ltb, leb,
  if◌then◌else◌,
}
use canterbury.Base.Int.{ℤ, pos, negsuc}
use canterbury.Strings.Trim.{is_empty, trim_space}
use canterbury.Strings.Decimal.{itoa, atoi}
use canterbury.Errors.{Result, ok, err, sentinel, wrap, wrapping, invalid_search, ◌>>=◌}
use canterbury.Domain.Vault.Search.{
  SearchNotesQuery, SearchNoteResult, SearchNotesPage, normalized_limit,
}

offset_of : Option ℤ → Result ℕ
offset_of none = err (wrap "parse search cursor" (sentinel invalid_search))
offset_of (some (negsuc n)) = err (wrap "parse search cursor" (sentinel invalid_search))
offset_of (some (pos n)) = ok n

unfoldable pub parse_cursor : Bytes → Result ℕ
unfolding offset_of
parse_cursor cursor =
    let trimmed = trim_space cursor in if is_empty trimmed then ok 0 else offset_of (atoi trimmed)

-- The page from an offset on. The sum does not overflow: the offset is below the length of a
-- slice, and the limit at most 200.
unfoldable pub page_at : ℕ → ℕ → List SearchNoteResult → SearchNotesPage
page_at offset limit results =
    let end = if ltb (length results) (offset + limit) then length results else offset + limit in
    if leb (length results) offset then record { results = []; next_cursor = [] } else record {
      results = drop offset (take end results);
      next_cursor = if ltb end (length results) then itoa end else [];
    }

unfoldable pub paginate_from_query :
    SearchNotesQuery → Result (List SearchNoteResult → SearchNotesPage)
paginate_from_query query = do
  offset ← wrapping "paginate from query" (parse_cursor query.cursor)
  ok (page_at offset (normalized_limit query))
