-- ===== src/Tests/Service.antt =====
-- A vault with one note, and two callers of whom one may read it.
use canterbury.Base.{
  none, some, [], ◌∷◌, Bytes, codes, ◌≡◌, ◌≢◌, refl, true, false, Memᴰ, ◌↔◌, ◌=s=◌,
}
use canterbury.Base.Int.{pos}
use canterbury.Errors.{Error, ok, message}
use canterbury.Strings.Trim.{trim_space, trimming}
use canterbury.Strings.Case.{to_lower, lower_byte}
use canterbury.Context.{Context, Principal, background, principal_from_context}
use canterbury.Domain.Vault.Access.{has_scope_loop, has_scope, allows_any}
use canterbury.Domain.Vault.Note.{Note, NotePath, Value}
use canterbury.Domain.Vault.Search.{SearchNotesQuery, SearchNotesPage, SearchNoteResult}
use canterbury.Service.Exec.{Service, World, record_event}
use canterbury.Service.Events.{outcome}
use canterbury.Service.Sanitize.{
  is_reserved_frontmatter_key, without_reserved, sanitize_frontmatter, sanitize_frontmatter_iff,
}
use canterbury.Service.Read.{record_read_note_allowed, release, require_principal, read_note}
use canterbury.Service.Read.Released.{IsReleased, read_note-ok}
use canterbury.Service.Read.Audited.{
  IsAccount, read_note-audited, read_note-fails_closed, denied_reads_agree,
}
use canterbury.Service.Search.{
  record_search_notes_completed, restrict, sanitize_page, search_as, search_notes,
}
use canterbury.Service.Search.Released.{IsSearchReleased, search_notes-ok}

abbrev same_bytes : Bytes → Bytes
same_bytes s = s

abbrev path : NotePath
path = codes "notes/plan.md"

abbrev note : Note
note = record {
  ref = record { path = path; title = codes "plan" };
  metadata = record {
    path = path;
    title = codes "plan";
    tags = [];
    access = record { scopes = codes "team" ∷ [] };
    frontmatter = (codes "Access", Value.null) ∷ (codes "draft", Value.boolean true) ∷ [];
    size_bytes = 4;
    modified_at = 0;
    has_frontmatter = true;
  };
  content = codes "text";
}

abbrev without_access : Note
without_access = record note {
  metadata = record note.metadata { frontmatter = (codes "draft", Value.boolean true) ∷ [] };
}

abbrev alice : Principal
alice = record {
  issuer = codes "https://issuer";
  subject = codes "alice";
  subject_hash = codes "hash";
  scopes = codes "team" ∷ [];
  mapping_checksum = codes "sum";
}

abbrev mallory : Principal
mallory = record alice { subject = codes "mallory"; scopes = codes "guest" ∷ [] }

abbrev request : Context
request = record background { principal = some alice }

abbrev result : SearchNoteResult
result = record { ref = note.ref; metadata = note.metadata; snippet = codes "text" }

abbrev page : SearchNotesPage
page = record { results = result ∷ []; next_cursor = [] }

abbrev sanitized_page : SearchNotesPage
sanitized_page = record page { results = record result { metadata = without_access.metadata } ∷ [] }

-- The vault holds the note under every path.
abbrev vault : Service
vault = record {
  repository = record { read_note = λ ctx p. ok note; search_notes = λ ctx q. ok page };
  audit_log = λ ctx event. none;
  clock = λ n. n;
}

abbrev refusal : Error
refusal = message "the log is full"

abbrev full_vault : Service
full_vault = record vault { audit_log = λ ctx event. some refusal }

abbrev start : World
start = record { readings = 3; log = [] }

abbrev query : SearchNotesQuery
query = record {
  text = record { terms = [] };
  path = record { include_prefixes = []; exclude_prefixes = [] };
  tags = record { all = []; any = [] };
  access = record { scopes_all = []; scopes_any = codes "other" ∷ [] };
  limit = pos 0;
  cursor = [];
  sort = [];
}

sanitized : sanitize_frontmatter same_bytes note.metadata ≡ without_access.metadata
unfolding sanitize_frontmatter without_reserved is_reserved_frontmatter_key trimming to_lower
    lower_byte ◌=s=◌
sanitized = refl

read :
    read_note same_bytes vault request path start
    ≡ (ok without_access, (read_note same_bytes vault request path start).1)
unfolding read_note require_principal release allows_any has_scope has_scope_loop
    record_read_note_allowed record_event outcome sanitize_frontmatter without_reserved
    is_reserved_frontmatter_key trimming to_lower lower_byte ◌=s=◌ principal_from_context
read = refl

read_note-ok_example :
    IsReleased same_bytes vault request path start without_access
      (read_note same_bytes vault request path start).1
read_note-ok_example = read_note-ok same_bytes vault request path start read

named : principal_from_context request ≡ some alice
unfolding principal_from_context
named = refl

read_note-audited_example :
    IsAccount same_bytes vault request alice
      (vault.repository.read_note request path)
      start
      (read_note same_bytes vault request path start)
read_note-audited_example =
    read_note-audited same_bytes vault request path start alice (λ e. refl) named

read_note-fails_closed_example :
    ((read_note same_bytes full_vault request path start).0 ≢ ok note)
    × ((read_note same_bytes full_vault request path start).1.log ≡ [])
read_note-fails_closed_example =
    read_note-fails_closed same_bytes full_vault request path start refusal note (λ e. refl)

denied : allows_any note.metadata.access mallory.scopes ≡ false
unfolding allows_any has_scope has_scope_loop ◌=s=◌
denied = refl

abbrev other : Note
other = record note { content = codes "another text" }

denied_reads_agree_example :
    release same_bytes vault request mallory note 0 start
    ≡ release same_bytes vault request mallory other 0 start
denied_reads_agree_example =
    denied_reads_agree same_bytes vault request mallory note other 0 start denied refl refl

searched :
    search_notes same_bytes same_bytes vault request query start
    ≡ (ok sanitized_page, (search_notes same_bytes same_bytes vault request query start).1)
unfolding search_notes require_principal search_as record_search_notes_completed record_event
    outcome sanitize_page sanitize_frontmatter without_reserved is_reserved_frontmatter_key trimming
    to_lower lower_byte ◌=s=◌ principal_from_context restrict
searched = refl

search_notes-ok_example :
    IsSearchReleased same_bytes same_bytes vault request query start sanitized_page
      (search_notes same_bytes same_bytes vault request query start).1
search_notes-ok_example = search_notes-ok same_bytes same_bytes vault request query start searched

sanitize_frontmatter_iff_example :
    Memᴰ
      (codes "draft", Value.boolean true)
      (sanitize_frontmatter same_bytes note.metadata).frontmatter
    ↔ (Memᴰ (codes "draft", Value.boolean true) note.metadata.frontmatter
        × (to_lower same_bytes (trim_space (codes "draft")) ≢ codes "access"))
sanitize_frontmatter_iff_example =
    sanitize_frontmatter_iff same_bytes note.metadata (codes "draft", Value.boolean true)
