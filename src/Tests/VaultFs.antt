-- ===== src/Tests/VaultFs.antt =====
-- The repository over a small vault.
use mathlib.Core.List.{Permᴰ}
use canterbury.Base.{
  ℕ, ◌≤◌, zero, suc, true, false, none, some, List, [], ◌∷◌, ◌++◌, Bytes, codes, ◌≡◌, ◌↔◌, refl,
  arith, length, ◌=s=◌, ◌==◌, if◌then◌else◌,
}
use canterbury.Base.Int.{pos}
use canterbury.Errors.{ok}
use canterbury.Strings.Trim.{trimming}
use canterbury.Strings.Case.{to_lower, lower_byte}
use canterbury.Strings.Affix.{has_prefix, index}
use canterbury.Strings.Split.{join}
use canterbury.Strings.Utf8.{
  fields, rune_size, rune_count, rune_count_from, rune_start, split_spaces, without_empty,
}
use canterbury.Domain.Vault.Access.{allows_any}
use canterbury.Domain.Vault.Note.{Note, Value}
use canterbury.Domain.Vault.Search.{SearchNotesQuery, SearchNoteResult, normalized_sort}
use canterbury.VaultFs.Filters.{match_query}
use canterbury.VaultFs.Filters.Paths.{IsSelected, match_query_iff}
use canterbury.VaultFs.Pagination.Pages.{follow, follow-all}
use canterbury.VaultFs.Sort.{sort_by_query, sort_by_path_asc}
use canterbury.VaultFs.Sort.Laws.{IsInOrder, sort_by_query-IsInOrder}
use canterbury.VaultFs.Frontmatter.{
  Yaml, NoteDocument, split_after, trim_line, is_frontmatter_fence, find_fence, fenced, split_lines,
  split_frontmatter, parse_note_document,
}
use canterbury.VaultFs.Frontmatter.Laws.{
  IsFenced, split_frontmatter-IsFenced, parse_note_document-private,
}
use canterbury.VaultFs.Snippet.{
  build_snippet, truncate_snippet, normalize_snippet_text, cut_from, with_ellipses,
  clamp_to_rune_boundary, previous_rune_boundary, extend, start_of, first_term_index, first_index,
  snippet_start,
}
use canterbury.VaultFs.Snippet
use canterbury.VaultFs.Filters.{normalize_strings, normalize_string}
use canterbury.VaultFs.Snippet.Total.{build_snippet-total}

abbrev same_bytes : Bytes → Bytes
same_bytes s = s

abbrev text : Bytes
text = codes "---\naccess: team\n--- \nbody"

abbrev yaml : Yaml
yaml = record {
  properties = λ s. ok (record { scopes = codes " team" ∷ []; tags = [] });
  raw = λ s. ok ((codes "access", Value.text (codes "team")) ∷ []);
}

split : split_frontmatter text ≡ ok (codes "access: team\n", codes "body", true)
unfolding split_frontmatter split_lines fenced find_fence split_after is_frontmatter_fence trim_line
    ◌=s=◌
split = refl

split_frontmatter-IsFenced_example : IsFenced text (codes "access: team\n") (codes "body")
split_frontmatter-IsFenced_example = split_frontmatter-IsFenced text split

abbrev plain : NoteDocument
plain = record {
  body = codes "body";
  has_frontmatter = false;
  frontmatter = [];
  access = record { scopes = [] };
  tags = [];
}

plain_parsed : parse_note_document yaml (codes "body") ≡ ok plain
unfolding parse_note_document split_frontmatter split_lines split_after is_frontmatter_fence
    trim_line ◌=s=◌
plain_parsed = refl

parse_note_document-private_example : allows_any plain.access (codes "team" ∷ []) ≡ false
parse_note_document-private_example =
    parse_note_document-private yaml (codes "body") (codes "team" ∷ []) plain_parsed refl

abbrev note : Note
note = record {
  ref = record { path = codes "Work/plan.md"; title = codes "plan" };
  metadata = record {
    path = codes "Work/plan.md";
    title = codes "plan";
    tags = codes "#Draft" ∷ [];
    access = record { scopes = codes "team" ∷ [] };
    frontmatter = [];
    size_bytes = 4;
    modified_at = 1;
    has_frontmatter = true;
  };
  content = codes "The  Plan";
}

abbrev query : SearchNotesQuery
query = record {
  text = record { terms = codes " plan " ∷ [] };
  path = record { include_prefixes = codes "work/" ∷ []; exclude_prefixes = [] };
  tags = record { all = codes "draft" ∷ []; any = [] };
  access = record { scopes_all = []; scopes_any = codes "team" ∷ [] };
  limit = pos 1;
  cursor = [];
  sort = [];
}

match_query_iff_example :
    (match_query same_bytes query note ≡ true) ↔ IsSelected same_bytes query note
match_query_iff_example = match_query_iff same_bytes query note

abbrev result : Bytes → SearchNoteResult
result path = record {
  ref = record note.ref { path = path };
  metadata = note.metadata;
  snippet = [];
}

abbrev results : List SearchNoteResult
results = result (codes "b.md") ∷ result (codes "a.md") ∷ []

follow-all_example : follow 3 query [] results ≡ ok results
follow-all_example = follow-all query results (omega arith)

sorts : sort_by_query query ≡ ok sort_by_path_asc
unfolding sort_by_query normalized_sort ◌=s=◌
sorts = refl

sort_by_query-IsInOrder_example :
    Permᴰ (sort_by_path_asc results) results × IsInOrder query (sort_by_path_asc results)
sort_by_query-IsInOrder_example = sort_by_query-IsInOrder query results sorts

truncated : truncate_snippet (codes "abcdef") 1 3 ≡ some (codes "...bcd...")
unfolding truncate_snippet cut_from with_ellipses clamp_to_rune_boundary previous_rune_boundary
    rune_start extend rune_size rune_count rune_count_from
truncated = refl

not_longer :
    length (to_lower same_bytes (normalize_snippet_text note.content))
    ≤ length (normalize_snippet_text note.content)
unfolding to_lower normalize_snippet_text fields trimming split_spaces without_empty join lower_byte
not_longer = omega arith

build_snippet-total_example :
    (snippet : Bytes) × (build_snippet same_bytes note query.text ≡ some snippet)
build_snippet-total_example = build_snippet-total same_bytes note query.text not_longer

-- U+023A has two bytes, and three in lower case.
abbrev lower_023a : Bytes → Bytes
lower_023a [] = []
lower_023a (a ∷ s) =
    (if a == 0xc8 then 0xe2 ∷ 0xb1 ∷ [] else if a == 0xba then 0xa5 ∷ [] else a ∷ [])
    ++ lower_023a s

abbrev repeated : ℕ → Bytes
repeated zero = codes "xx"
repeated (suc n) = 0xc8 ∷ 0xba ∷ repeated n

-- Far enough behind such characters, the index of a term in the text in lower case is past the
-- end of the text.
snippet_panics :
    build_snippet lower_023a
      (record note { content = repeated 130 })
      (record { terms = codes "xx" ∷ [] })
    ≡ none
unfolding build_snippet start_of Snippet.truncated first_term_index first_index normalize_strings
    normalize_string to_lower lower_byte normalize_snippet_text fields trimming split_spaces
    without_empty join index has_prefix snippet_start previous_rune_boundary
snippet_panics = refl
