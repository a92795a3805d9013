-- ===== src/AuditLog.antt =====
-- internal/app/auditlog: the completion of an event before it is recorded.
pub mod Ulid
pub mod Laws
use canterbury.Base.{Option, none, some, Bytes, if◌then◌else◌}
use canterbury.Strings.Trim.{is_empty}
use canterbury.Errors.{Error, Result, ok, err, message, wrap, wrapping, ◌>>=◌}
use canterbury.Time.{Time, is_zero, utc}
use canterbury.Context.{Context}
use canterbury.Domain.Audit.{Event}
use canterbury.Domain.Audit.Identifier.{EventId, new_event_id}
use canterbury.AuditLog.Ulid.{Entropy, new_ulid}

abbrev pub IdGenerator : Type 0
IdGenerator = Time → Result EventId

-- `ulidGenerator`, with what the system gives as random bytes
unfoldable pub ulid_generator : Result Entropy → IdGenerator
ulid_generator random timestamp = do
  ulid ← wrapping "make ulid for event" (new_ulid random timestamp)
  wrapping "make event ID from ulid" (new_event_id ulid)

-- internal/domain/audit/recorder.go: `none` is the nil error.
abbrev pub Recorder : Type 0
Recorder = Context → Event → Option Error

-- The clock is read once in a call, and gives `now`.
pub record AuditService : Type 0 where
  pub now : Time
  pub id_generator : IdGenerator
  pub recorder : Recorder

-- `none` is a nil recorder. The clock and the random bytes are the system's.
unfoldable pub new_audit_service : Time → Result Entropy → Option Recorder → Result AuditService
new_audit_service now random none = err (message "recorder must not be nil")
new_audit_service now random (some recorder) =
    ok (record { now = now; id_generator = ulid_generator random; recorder = recorder })

unfoldable pub stamp : AuditService → Event → Event
stamp s event = record event {
  occurred_at = if is_zero event.occurred_at then utc s.now else utc event.occurred_at;
}

unfoldable pub identify : AuditService → Event → Result Event
identify s event =
    if is_empty event.id
    then (wrapping "set event id" (s.id_generator event.occurred_at) >>= λ id.
        ok (record event { id = id }))
    else (wrapping "validate event id" (new_event_id event.id) >>= λ id.
        ok (record event { id = id }))

unfoldable pub recorded : Option Error → Option Error
recorded none = none
recorded (some e) = some (wrap "record event in log" e)

unfoldable pub record_identified : AuditService → Context → Result Event → Option Error
record_identified s ctx (err e) = some e
record_identified s ctx (ok event) = recorded (s.recorder ctx event)

unfoldable pub record_event : AuditService → Context → Event → Option Error
unfolding recorded record_identified
record_event s ctx event = record_identified s ctx (identify s (stamp s event))
