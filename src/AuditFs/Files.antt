-- ===== src/AuditFs/Files.antt =====
-- internal/adapters/auditfs/record.go, file.go and jsonl.go: an event as a line at the end of a file.
pub mod Laws
pub mod Log
use canterbury.Base.{
  ℕ, Option, none, some, String, [], ◌∷◌, ◌++◌, Bytes, codes, take, length, ◌==◌, ◌=s=◌,
  if◌then◌else◌,
}
use canterbury.Errors.{Error, Result, ok, err, sentinel, wrap, short_write, ◌>>=◌}
use canterbury.Time.{Time}
use canterbury.Time.Civil.{Date, date_of, pad}
use canterbury.Context.{Context}
use canterbury.Domain.Audit.{Event}
use canterbury.Encoding.Json.{print}
use canterbury.VaultFs.Paths.{join_path}
use canterbury.AuditFs.Data.{EventData, event_data_from_domain}
use canterbury.AuditFs.Data.Marshal.{event_json}
use canterbury.AuditFs.Writer.{Recorder}

-- The content of each file; a file that is not there is empty.
abbrev pub Store : Type 0
Store = Bytes → Bytes

unfoldable pub append_to : Store → Bytes → Bytes → Store
append_to store path data' other = if path =s= other then store other ++ data' else store other

-- How the file system answers the calls for an event: a write tells how many of the bytes it wrote.
pub record Disk : Type 0 where
  pub mkdir_all : Bytes → Option Error
  pub open_append : Bytes → Option Error
  pub write : Bytes → Bytes → ℕ × Option Error
  pub sync : Bytes → Option Error
  pub close : Bytes → Option Error

abbrev underscore : ℕ
underscore = b'_'

unfoldable pub file_name : Bytes → Date → Bytes
file_name writer_id date =
    pad 4 date.year
    ++ (underscore ∷ pad 2 date.month)
    ++ (underscore ∷ pad 2 date.day)
    ++ (underscore ∷ writer_id)
    ++ codes "_audit.jsonl"

-- The directory of a month, and the file of a day in it. It is also `filepath.Dir` of the path of the
-- file, since the identifier of a writer has no slash.
unfoldable pub audit_dir : Recorder → Date → Bytes
audit_dir r date = join_path (join_path r.root (pad 4 date.year)) (pad 2 date.month)

unfoldable pub audit_path : Recorder → Time → Bytes
audit_path r for_date =
    let date = date_of for_date in join_path (audit_dir r date) (file_name r.writer_id date)

-- `none` is the nil error.
abbrev pub or_else : Option Error → Option Error → Option Error
or_else none next = next
or_else (some e) next = some e

abbrev pub explain : String → Option Error → Option Error
explain text none = none
explain text (some e) = some (wrap text e)

-- `openAuditFile`, with `openAppendFile`
unfoldable pub open_audit_file : Disk → Recorder → Time → Option Error
open_audit_file disk r for_date = explain "open append file for date" (
    or_else (explain "create audit directory" (disk.mkdir_all (audit_dir r (date_of for_date))))
      (explain "open audit file" (disk.open_append (audit_path r for_date))))

unfoldable pub written_all : ℕ → ℕ → Option Error
written_all written size =
    if written == size then none else some (wrap "write audit event" (sentinel short_write))

-- The line of an event.
unfoldable pub line_of : EventData → Result Bytes
line_of data' = event_json data' >>= λ json. ok (print json)

unfoldable pub append_line : Disk → Bytes → Bytes → Store → Option Error × Store
append_line disk path line store =
    let data' = line ++ 0x0a ∷ [] in
    let (written, failed) = disk.write path data' in
    (
      or_else (explain "write audit event" failed) (written_all written (length data')),
      append_to store path (take written data'),
    )

unfoldable pub append_jsonl : Disk → Bytes → Result Bytes → Store → Option Error × Store
append_jsonl disk path (err e) store = (some (wrap "marshal audit event data" e), store)
append_jsonl disk path (ok line) store = append_line disk path line store

-- What follows the write: the file is closed whatever happens, and a failure of the close counts
-- after a success only.
unfoldable pub sync_and_close : Disk → Bytes → Option Error → Option Error
sync_and_close disk path (some e) = some (wrap "append event to file" e)
sync_and_close disk path none =
    or_else (explain "sync audit log file" (disk.sync path))
      (explain "close audit log file" (disk.close path))

unfoldable pub record_data : Disk → Recorder → EventData → Store → Option Error × Store
record_data disk r data' store = elim (open_audit_file disk r data'.occurred_at) [
  | some e ↦ (some (wrap "open audit file for event" e), store)
  | none ↦
      let path = audit_path r data'.occurred_at in
      let (failed, store') = append_jsonl disk path (line_of data') store in
      (sync_and_close disk path failed, store')
]

-- `Recorder.Record`
unfoldable pub record_in_file : Disk → Recorder → Context → Event → Store → Option Error × Store
record_in_file disk r ctx event store = elim ctx.cancelled [
  | some e ↦ (some e, store)
  | none ↦ elim (event_data_from_domain event) [
    | err e ↦ (some (wrap "convert event to data" e), store)
    | ok data' ↦ record_data disk r data' store
  ]
]
