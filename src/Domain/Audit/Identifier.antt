-- ===== src/Domain/Audit/Identifier.antt =====
-- internal/domain/audit/event.go: `NewEventID`, `NewRequestID` and `NewTraceID`.
pub mod Laws
use canterbury.Base.{ℕ, Bytes, length, ltb, if◌then◌else◌}
use canterbury.Strings.Trim.{is_empty, trim_space}
use canterbury.Errors.{
  Result, ok, err, sentinel, invalid_event_id, invalid_request_id, invalid_trace_id,
}

abbrev pub max_id_length : ℕ
max_id_length = 128

abbrev pub EventId : Type 0
EventId = Bytes

abbrev pub RequestId : Type 0
RequestId = Bytes

abbrev pub TraceId : Type 0
TraceId = Bytes

unfoldable pub new_event_id : Bytes → Result EventId
new_event_id value =
    let normalized = trim_space value in
    if is_empty normalized
    then err (sentinel invalid_event_id)
    else if ltb max_id_length (length normalized)
    then err (sentinel invalid_event_id)
    else ok normalized

unfoldable pub new_request_id : Bytes → Result RequestId
new_request_id value =
    let normalized = trim_space value in
    if is_empty normalized
    then err (sentinel invalid_request_id)
    else if ltb max_id_length (length normalized)
    then err (sentinel invalid_request_id)
    else ok normalized

-- A trace identifier may be empty.
unfoldable pub new_trace_id : Bytes → Result TraceId
new_trace_id value =
    let normalized = trim_space value in
    if ltb max_id_length (length normalized) then err (sentinel invalid_trace_id) else ok normalized
