-- ===== src/VaultFs/Snippet.antt =====
-- internal/adapters/vaultfs/snippet.go. `none` is the panic of an index that is out of range.
pub mod Laws
pub mod Total
use canterbury.Base.{
  ℕ, zero, suc, ◌+◌, ◌-◌, ◌/◌, Bool, true, false, ◌&&◌, Option, none, some, List, [], ◌∷◌, ◌++◌,
  Bytes, codes, length, take, drop, leb, ltb, if◌then◌else◌,
}
use canterbury.Strings.Trim.{is_empty}
use canterbury.Strings.Affix.{index}
use canterbury.Strings.Case.{to_lower}
use canterbury.Strings.Split.{join}
use canterbury.Strings.Utf8.{rune_start, rune_size, rune_count, fields}
use canterbury.Domain.Vault.Note.{Note}
use canterbury.Domain.Vault.Search.{TextSearch}
use canterbury.VaultFs.Filters.{normalize_strings}

abbrev pub default_snippet_length : ℕ
default_snippet_length = 240

abbrev pub snippet_ellipsis : Bytes
snippet_ellipsis = codes "..."

unfoldable pub normalize_snippet_text : Bytes → Bytes
normalize_snippet_text content = join b' ' (fields content)

-- `none` is -1.
abbrev pub earlier : Option ℕ → Option ℕ → Option ℕ
earlier first none = first
earlier none (some i) = some i
earlier (some first) (some i) = if ltb i first then some i else some first

unfoldable pub first_index : Bytes → List Bytes → Option ℕ → Option ℕ
first_index content [] first = first
first_index content (term ∷ terms) first =
    first_index content terms (earlier first (index content term))

abbrev pub byte_at : Bytes → ℕ → Option ℕ
byte_at [] i = none
byte_at (c ∷ s) zero = some c
byte_at (c ∷ s) (suc i) = byte_at s i

unfoldable pub previous_rune_boundary : Bytes → ℕ → Option ℕ
previous_rune_boundary content zero = some 0
previous_rune_boundary content (suc i) =
    let before = previous_rune_boundary content i in
    elim (byte_at content (suc i)) [
      | none ↦ none
      | some c ↦ if rune_start c then some (suc i) else before
    ]

unfoldable pub clamp_to_rune_boundary : Bytes → ℕ → Option ℕ
clamp_to_rune_boundary content i =
    if leb (length content) i then some (length content) else previous_rune_boundary content i

unfoldable pub snippet_start : Bytes → ℕ → ℕ → Option ℕ
snippet_start content match_index limit =
    if leb match_index (limit / 2)
    then some 0
    else previous_rune_boundary content (match_index - limit / 2)

-- The loop that moves `end` on. Each round passes a character, so that the length is enough fuel.
unfoldable pub extend : ℕ → Bytes → ℕ → ℕ → ℕ → ℕ
extend zero content start end limit = end
extend (suc fuel) content start end limit =
    let further = extend fuel content start (end + rune_size (drop end content)) limit in
    if ltb end (length content) && ltb (rune_count (drop start (take end content))) limit
    then further
    else end

unfoldable pub with_ellipses : Bytes → ℕ → ℕ → Bytes
with_ellipses content start end =
    let snippet = drop start (take end content) in
    let opened = if ltb 0 start then snippet_ellipsis ++ snippet else snippet in
    if ltb end (length content) then opened ++ snippet_ellipsis else opened

unfoldable pub cut_from : Bytes → ℕ → Option ℕ → Option Bytes
cut_from content limit none = none
cut_from content limit (some start) =
    if leb (length content) start
    then some []
    else some (with_ellipses content start (extend (length content) content start start limit))

unfoldable pub truncate_snippet : Bytes → ℕ → ℕ → Option Bytes
unfolding cut_from with_ellipses
truncate_snippet content start limit =
    if leb limit 0 then some [] else cut_from content limit (clamp_to_rune_boundary content start)

module _ (lower_unicode : Bytes → Bytes) where
  unfoldable pub first_term_index : Bytes → List Bytes → Option ℕ
  first_term_index content terms =
      first_index (to_lower lower_unicode content) (normalize_strings lower_unicode terms) none

  unfoldable pub start_of : Bytes → Option ℕ → Option ℕ
  start_of content none = some 0
  start_of content (some match_index) = snippet_start content match_index default_snippet_length

  unfoldable pub truncated : Bytes → Option ℕ → Option Bytes
  truncated content none = none
  truncated content (some start) = truncate_snippet content start default_snippet_length

  unfoldable pub build_snippet : Note → TextSearch → Option Bytes
  unfolding start_of truncated
  build_snippet note search =
      let content = normalize_snippet_text note.content in
      if is_empty content
      then some []
      else truncated content (start_of content (first_term_index content search.terms))
