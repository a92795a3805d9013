-- ===== src/VaultFs/Search.antt =====
-- internal/adapters/vaultfs/search.go. The directory is a tree whose entries stand in the order in
-- which `filepath.WalkDir` visits them; an entry that cannot be read is its error.
pub mod Laws
use canterbury.Base.{
  Bool, true, false, ◌||◌, not, Option, none, some, List, [], ◌∷◌, ◌++◌, Bytes, codes, ◌=s=◌,
  if◌then◌else◌,
}
use canterbury.Strings.Case.{to_lower}
use canterbury.Strings.Clean.{slash}
use canterbury.Errors.{Error, Result, ok, err, message, wrap, wrapping, unless, ◌>>=◌}
use canterbury.Context.{Context}
use canterbury.Domain.Vault.Note.{Note, NotePath}
use canterbury.Domain.Vault.NotePath.{new_note_path}
use canterbury.Domain.Vault.Search.{SearchNotesQuery, SearchNoteResult, SearchNotesPage}
use canterbury.VaultFs.Filters.{Matcher, match_query}
use canterbury.VaultFs.Pagination.{paginate_from_query}
use canterbury.VaultFs.Sort.{sort_by_query}
use canterbury.VaultFs.Snippet.{build_snippet}
use canterbury.VaultFs.Paths.{Files, ext, is_hidden_or_system_name}
use canterbury.VaultFs.Frontmatter.{Yaml}
use canterbury.VaultFs.Read.{Repository, read_note}

mutual
  pub data Entry : Type 0 where
    file : Bytes → Entry
    directory : Bytes → Entries → Entry
    unreadable : Error → Entry

  pub data Entries : Type 0 where
    end : Entries
    entry : Entry → Entries → Entries

unfoldable pub should_skip_dir : Bytes → Bool
should_skip_dir name = is_hidden_or_system_name name

module _ (lower_unicode : Bytes → Bytes) where
  unfoldable pub should_skip_file : Bytes → Bool
  should_skip_file name =
      is_hidden_or_system_name name || not (to_lower lower_unicode (ext name) =s= codes ".md")

  module _ (files : Files) (yaml : Yaml) (r : Repository) (ctx : Context)
      (query : SearchNotesQuery) where
    -- The panic of `buildSnippet` is an error here.
    with_snippet : Note → Option Bytes → Result SearchNoteResult
    with_snippet note none = err (message "runtime error: index out of range")
    with_snippet note (some snippet) =
        ok (record { ref = note.ref; metadata = note.metadata; snippet = snippet })

    -- What is appended for a note that was read.
    unfoldable pub collect : Note → Result (List SearchNoteResult)
    unfolding with_snippet
    collect note =
        if match_query lower_unicode query note
        then (with_snippet note (build_snippet lower_unicode note query.text) >>= λ result.
            ok (result ∷ []))
        else ok []

    collect_at : Result NotePath → Result (List SearchNoteResult)
    collect_at (err e) = ok []
    collect_at (ok path) =
        wrapping "search notes" (read_note files yaml r ctx path) >>= λ note. collect note

    -- The function that `WalkDir` is given, on a file at a path below the root.
    unfoldable pub visit_file : Bytes → Bytes → Result (List SearchNoteResult)
    unfolding collect_at
    visit_file relative_path name = unless ctx.cancelled (
        if should_skip_file name
        then ok []
        else collect_at (new_note_path lower_unicode relative_path))

    -- The walk; the prefix is the path of the directory below the root, with a slash at its end.
    unfoldable mutual
      pub walk : Bytes → Entry → Result (List SearchNoteResult)
      walk prefix (unreadable e) = err (wrap "walk" e)
      walk prefix (file name) = visit_file (prefix ++ name) name
      walk prefix (directory name entries) =
          let below = walk_all (prefix ++ name ++ slash ∷ []) entries in
          unless ctx.cancelled (if should_skip_dir name then ok [] else below)

      pub walk_all : Bytes → Entries → Result (List SearchNoteResult)
      walk_all prefix end = ok []
      walk_all prefix (entry first rest) =
          let results = walk_all prefix rest in
          walk prefix first >>= λ found. results >>= λ more. ok (found ++ more)

    -- The root itself is no note, and is always entered.
    unfoldable pub search_notes : Entries → Result SearchNotesPage
    search_notes entries = unless ctx.cancelled (
        wrapping "prepare search sort" (sort_by_query query) >>= λ sort.
        wrapping "prepare search pagination" (paginate_from_query query) >>= λ paginate.
        wrapping "scanning notes" (walk_all [] entries) >>= λ results. ok (paginate (sort results)))
