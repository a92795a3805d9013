-- ===== src/AuditFs/Writer.antt =====
-- internal/adapters/auditfs/recorder.go: the recorder and the identifier of its writer. A text is
-- read by its bytes: each byte of a character outside ASCII is none of the accepted ones, and one
-- separator stands for a run of these.
pub mod Laws
use canterbury.Base.{
  ℕ, Bool, true, false, ◌||◌, ◌&&◌, Option, none, some, [], ◌∷◌, ◌++◌, reverse, Bytes, codes, leb,
  ◌==◌, all, if◌then◌else◌,
}
use canterbury.Strings.Trim.{is_empty, trim_space}
use canterbury.Strings.Decimal.{itoa}
use canterbury.Errors.{
  Error, Result, ok, err, sentinel, wrapping, invalid_audit_root, invalid_writer_id, ◌>>=◌,
}
use canterbury.Auth.Hash.{hex}

pub record Recorder : Type 0 where
  pub root : Bytes
  pub writer_id : Bytes

unfoldable pub is_writer_id_char : ℕ → Bool
is_writer_id_char c =
    (leb b'A' c && leb c b'Z')
    || (leb b'a' c && leb c b'z')
    || (leb b'0' c && leb c b'9')
    || (c == b'.')
    || (c == b'_')
    || (c == b'-')

unfoldable pub normalize_explicit_writer_id : Bytes → Result Bytes
normalize_explicit_writer_id id =
    let trimmed = trim_space id in
    if is_empty trimmed
    then err (sentinel invalid_writer_id)
    else if all is_writer_id_char trimmed
    then ok trimmed
    else err (sentinel invalid_writer_id)

-- The loop of `sanitizeWriterIDComponent`; the first argument is `lastWasSeparator`.
unfoldable pub separated : Bool → Bytes → Bytes
separated after [] = []
separated after (c ∷ s) = elim (is_writer_id_char c) [
  | true ↦ c ∷ separated false s
  | false ↦ if after then separated true s else b'-' ∷ separated true s
]

abbrev pub is_separator : ℕ → Bool
is_separator c = (c == b'.') || (c == b'-') || (c == b'_')

unfoldable pub drop_separators : Bytes → Bytes
drop_separators [] = []
drop_separators (c ∷ s) = let rest = drop_separators s in if is_separator c then rest else c ∷ s

-- `strings.Trim(s, ".-_")`
unfoldable pub trim_separators : Bytes → Bytes
trim_separators s = reverse (drop_separators (reverse (drop_separators s)))

unfoldable pub sanitize_writer_id_component : Bytes → Bytes
sanitize_writer_id_component value = trim_separators (separated false (trim_space value))

abbrev pub default_host : Bytes
default_host = codes "host"

-- What the system tells: the name of the host, the number of the process, and four random bytes.
pub record Machine : Type 0 where
  pub hostname : Result Bytes
  pub pid : ℕ
  pub random : Result Bytes

unfoldable pub host_component : Result Bytes → Bytes
host_component (err e) = default_host
host_component (ok hostname) =
    let sanitized = sanitize_writer_id_component hostname in
    if is_empty sanitized then default_host else sanitized

unfoldable pub generate_writer_id : Machine → Result Bytes
generate_writer_id m = wrapping "read random writer ID suffix" m.random >>= λ random_bytes.
    ok (
      host_component m.hostname
      ++ (codes "-pid" ++ (itoa m.pid ++ (codes "-" ++ hex random_bytes))))

-- The option `WithWriterID`, where it is given.
unfoldable pub configured_writer_id : Option Bytes → Result (Option Bytes)
configured_writer_id none = ok none
configured_writer_id (some id) =
    normalize_explicit_writer_id id >>= λ writer_id. ok (some writer_id)

unfoldable pub writer_id_for : Machine → Option Bytes → Result Bytes
writer_id_for m none = wrapping "generate audit log writer ID" (generate_writer_id m)
writer_id_for m (some writer_id) = ok writer_id

-- The calls on the file system that make the root: the absolute path, the directories, and the
-- path without symbolic links.
pub record RootFiles : Type 0 where
  pub abs : Bytes → Result Bytes
  pub mkdir_all : Bytes → Option Error
  pub eval_symlinks : Bytes → Result Bytes

unfoldable pub made : Option Error → Result (Unit {0})
made none = ok tt
made (some e) = err e

unfoldable pub new_recorder : RootFiles → Machine → Option Bytes → Bytes → Result Recorder
new_recorder files m option root =
    let trimmed = trim_space root in
    if is_empty trimmed
    then err (sentinel invalid_audit_root)
    else wrapping "configure audit log filesystem recorder" (configured_writer_id option)
      >>= λ configured. writer_id_for m configured >>= λ writer_id.
          wrapping "resolve audit log root absolute path" (files.abs trimmed) >>= λ abs_root.
          wrapping "create audit log root" (made (files.mkdir_all abs_root)) >>= λ _.
          wrapping "resolve audit log root symlinks" (files.eval_symlinks abs_root) >>= λ resolved.
          ok (record { root = resolved; writer_id = writer_id })
