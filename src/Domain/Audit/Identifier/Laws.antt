-- ===== src/Domain/Audit/Identifier/Laws.antt =====
-- Which identifiers are accepted, and that an accepted one is accepted again as it is.
use canterbury.Base.{false, [], ◌∷◌, ◌≡◌, ◌≤◌, arith, Bytes, length}
use canterbury.Strings.Trim.{is_empty, trim_space}
use canterbury.Strings.Trim.Laws.{trim_space_idem}
use canterbury.Errors.{ok}
use canterbury.Domain.Audit.Identifier.{
  max_id_length, EventId, RequestId, new_event_id, new_request_id,
}

length-pos : (s : Bytes) → is_empty s ≡ false → 1 ≤ length s
length-pos [] e = cc
length-pos (c ∷ s) e = omega arith

-- An event identifier has between one and 128 bytes, and is accepted again unchanged.
pub new_event_id-bounds :
    (value : Bytes) {id : EventId}
    → new_event_id value ≡ ok id
    → (1 ≤ length id) × (length id ≤ max_id_length) × (new_event_id id ≡ ok id)
unfolding new_event_id
new_event_id-bounds value {id} h =
    ground (arith, trim_space_idem value, length-pos (trim_space value))

-- The same holds of a request identifier.
pub new_request_id-bounds :
    (value : Bytes) {id : RequestId}
    → new_request_id value ≡ ok id
    → (1 ≤ length id) × (length id ≤ max_id_length) × (new_request_id id ≡ ok id)
unfolding new_request_id
new_request_id-bounds value {id} h =
    ground (arith, trim_space_idem value, length-pos (trim_space value))
