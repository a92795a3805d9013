-- ===== src/VaultFs/Frontmatter.antt =====
-- internal/adapters/vaultfs/frontmatter.go. The YAML decoder is a parameter.
pub mod Laws
pub mod Scopes
use canterbury.Base.{
  ℕ, ◌+◌, Bool, true, false, ◌&&◌, ◌||◌, Option, none, some, List, [], ◌∷◌, ◌++◌, Bytes, codes,
  length, take, drop, ◌==◌, ◌=s=◌, if◌then◌else◌,
}
use canterbury.Strings.Trim.{is_empty, trim_space}
use canterbury.Strings.Split.{cons_first}
use canterbury.Errors.{Result, ok, err, sentinel, wrap, wrapping, unclosed_frontmatter, ◌>>=◌}
use canterbury.Domain.Vault.Access.{Scope, ResourceAccess, new_scope}
use canterbury.Domain.Vault.Note.{Tag, Value, new_tag}

pub record NoteDocument : Type 0 where
  pub body : Bytes
  pub has_frontmatter : Bool
  pub frontmatter : List (Bytes × Value)
  pub access : ResourceAccess
  pub tags : List Tag

-- `strings.SplitAfter(s, "\n")`
unfoldable pub split_after : ℕ → Bytes → List Bytes
split_after sep [] = [] ∷ []
split_after sep (c ∷ s) =
    let lines = split_after sep s in if c == sep then (c ∷ []) ∷ lines else cons_first c lines

abbrev is_blank : ℕ → Bool
is_blank c = c == b' ' || c == 9 || c == 13 || c == 10

-- `strings.TrimRight(line, " \t\r\n")`
unfoldable pub trim_line : Bytes → Bytes
trim_line [] = []
trim_line (c ∷ s) = let rest = trim_line s in if is_blank c && is_empty rest then [] else c ∷ rest

unfoldable pub is_frontmatter_fence : Bytes → Bool
is_frontmatter_fence line = trim_line line =s= codes "---"

-- The loop over the lines after the first, where `end` is the position that it has come to: the
-- position of the next fence, and the length of its line.
unfoldable pub find_fence : List Bytes → ℕ → Option (ℕ × ℕ)
find_fence [] end = none
find_fence (line ∷ lines) end =
    let rest = find_fence lines (end + length line) in
    if is_frontmatter_fence line then some (end, length line) else rest

unfoldable pub fenced : Bytes → ℕ → Option (ℕ × ℕ) → Result (Bytes × Bytes × Bool)
fenced content start none = err (sentinel unclosed_frontmatter)
fenced content start (some (end, width)) =
    ok (drop start (take end content), drop (end + width) content, true)

unfoldable pub split_lines : Bytes → List Bytes → Result (Bytes × Bytes × Bool)
split_lines content [] = ok ([], content, false)
split_lines content (first ∷ lines) =
    if is_frontmatter_fence first
    then fenced content (length first) (find_fence lines (length first))
    else ok ([], content, false)

unfoldable pub split_frontmatter : Bytes → Result (Bytes × Bytes × Bool)
unfolding split_lines fenced
split_frontmatter content = split_lines content (split_after 10 content)

unfoldable pub build_scopes : List Bytes → Result (List Scope)
build_scopes [] = ok []
build_scopes (scope ∷ scopes) =
    let trimmed = trim_space scope in
    let rest = build_scopes scopes in
    if is_empty trimmed
    then rest
    else wrapping "parse scope" (new_scope trimmed) >>= λ parsed.
        rest >>= λ more. ok (parsed ∷ more)

unfoldable pub build_access : List Bytes → Result ResourceAccess
build_access scopes = build_scopes scopes >>= λ parsed. ok (record { scopes = parsed })

-- The error of `NewTag` is dropped: a text that is not blank has none.
tag_or_zero : Result Tag → Tag
tag_or_zero (ok tag) = tag
tag_or_zero (err e) = []

unfoldable pub build_tags : List Bytes → List Tag
unfolding tag_or_zero
build_tags [] = []
build_tags (value ∷ values) =
    let trimmed = trim_space value in
    let rest = build_tags values in
    if is_empty trimmed then rest else tag_or_zero (new_tag trimmed) ∷ rest

-- `noteFrontmatter`
pub record NoteFrontmatter : Type 0 where
  pub scopes : List Bytes
  pub tags : List Bytes

-- `yaml.Unmarshal` into the struct and into the map.
pub record Yaml : Type 0 where
  pub properties : Bytes → Result NoteFrontmatter
  pub raw : Bytes → Result (List (Bytes × Value))

module _ (yaml : Yaml) where
  unfoldable pub parse_note_frontmatter : Bytes → Result (NoteFrontmatter × List (Bytes × Value))
  parse_note_frontmatter frontmatter = do
    properties ← wrapping "unmarshal frontmatter into struct" (yaml.properties frontmatter)
    raw ← wrapping "unmarshal frontmatter into map" (yaml.raw frontmatter)
    ok (properties, raw)

  parse_properties : Bytes → Bytes → Result NoteDocument
  parse_properties frontmatter body = do
    parsed ← wrapping "parse note frontmatter" (parse_note_frontmatter frontmatter)
    access ← wrapping "parse access policy" (build_access parsed.0.scopes)
    ok (record {
      body = body;
      has_frontmatter = true;
      frontmatter = parsed.1;
      access = access;
      tags = build_tags parsed.0.tags;
    })

  unfoldable pub parse_note_document : Bytes → Result NoteDocument
  unfolding parse_properties
  parse_note_document content =
      wrapping "split frontmatter" (split_frontmatter content) >>= λ parts.
      if parts.2
      then parse_properties parts.0 parts.1
      else ok (record {
        body = parts.1;
        has_frontmatter = false;
        frontmatter = [];
        access = record { scopes = [] };
        tags = [];
      })
