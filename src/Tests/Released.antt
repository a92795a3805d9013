-- ===== src/Tests/Released.antt =====
-- The service over a directory with one note.
use canterbury.Base.{true, false, some, [], ◌∷◌, Bytes, codes, ◌≡◌, refl, ◌=s=◌}
use canterbury.Base.Int.{pos}
use canterbury.Errors.{ok}
use canterbury.Strings.Affix.{has_prefix}
use canterbury.Strings.Trim.{trimming}
use canterbury.Strings.Split.{split_on, join}
use canterbury.Strings.Clean.{clean, run, step, go_up}
use canterbury.Context.{Context, Principal, background, principal_from_context}
use canterbury.Domain.Vault.Access.{new_scope}
use canterbury.Domain.Vault.Note.{Note, Value}
use canterbury.Domain.Vault.Search.{SearchNotesQuery, SearchNotesPage, SearchNoteResult}
use canterbury.Service.Exec.{World}
use canterbury.VaultFs.Paths.{
  Files, elements, drop_common, rel, is_within_root, join_path, is_hidden_or_system_path,
  is_hidden_or_system_name, base, trim_slashes, ext, join_vault_path, resolved,
}
use canterbury.VaultFs.Frontmatter.{
  Yaml, parse_note_document, split_frontmatter, split_lines, fenced, find_fence, split_after,
  is_frontmatter_fence, trim_line, parse_note_frontmatter, build_access, build_scopes, build_tags,
}
use canterbury.VaultFs.Read.{Repository, read_note, read_file_note, note_of, title_from_note_path}
use canterbury.VaultFs.Read.Laws.{IsRead, read_note-IsRead}
use canterbury.VaultFs.Search.{Entry, Entries}

abbrev pub same_bytes : Bytes → Bytes
same_bytes s = s

abbrev text : Bytes
text = codes "---\n---\nbody"

abbrev pub yaml : Yaml
yaml = record {
  properties = λ s. ok (record { scopes = codes " team" ∷ []; tags = [] });
  raw = λ s. ok ((codes "draft", Value.boolean true) ∷ []);
}

abbrev pub files : Files
files = record {
  eval_symlinks = λ path. ok path;
  stat = λ path. ok (record { is_dir = false; size = 12; mod_time = 5 });
  read_file = λ path. ok text;
}

abbrev pub vault : Repository
vault = record { root = codes "/v" }

abbrev pub tree : Entries
tree = Entries.entry (Entry.file (codes "a.md")) Entries.end

abbrev note : Note
note = record {
  ref = record { path = codes "a.md"; title = codes "a" };
  metadata = record {
    path = codes "a.md";
    title = codes "a";
    tags = [];
    access = record { scopes = codes "team" ∷ [] };
    frontmatter = (codes "draft", Value.boolean true) ∷ [];
    size_bytes = 12;
    modified_at = 5;
    has_frontmatter = true;
  };
  content = codes "body";
}

abbrev pub alice : Principal
alice = record {
  issuer = codes "i";
  subject = codes "alice";
  subject_hash = [];
  scopes = codes "team" ∷ [];
  mapping_checksum = [];
}

abbrev pub request : Context
request = record background { principal = some alice }

abbrev query : SearchNotesQuery
query = record {
  text = record { terms = [] };
  path = record { include_prefixes = []; exclude_prefixes = [] };
  tags = record { all = []; any = [] };
  access = record { scopes_all = []; scopes_any = [] };
  limit = pos 0;
  cursor = [];
  sort = [];
}

abbrev pub start : World
start = record { readings = 0; log = [] }

pub absolute : has_prefix vault.root (codes "/") ≡ true
unfolding has_prefix
absolute = refl

read : read_note files yaml vault request (codes "a.md") ≡ ok note
unfolding read_note read_file_note note_of title_from_note_path base trim_slashes ext join_path
    join_vault_path resolved is_hidden_or_system_path is_hidden_or_system_name is_within_root rel
    clean run step go_up split_on join elements drop_common has_prefix ◌=s=◌ parse_note_document
    split_frontmatter split_lines fenced find_fence split_after is_frontmatter_fence trim_line
    parse_note_frontmatter build_access build_scopes build_tags new_scope trimming
read = refl

read_note-IsRead_example : IsRead files yaml (codes "/v") (codes "a.md") note
read_note-IsRead_example = read_note-IsRead files yaml vault request (codes "a.md") absolute read

abbrev result : SearchNoteResult
result = record { ref = note.ref; metadata = note.metadata; snippet = codes "body" }

abbrev page : SearchNotesPage
page = record { results = result ∷ []; next_cursor = [] }

pub named : principal_from_context request ≡ some alice
unfolding principal_from_context
named = refl

pub normal : new_scope (codes "team") ≡ ok (codes "team")
unfolding new_scope trimming
normal = refl
