-- ===== src/Tests/Requests.antt =====
-- Health, development tokens, audit identifiers and headers on small inputs.
use canterbury.Base.{ℕ, none, some, List, [], ◌∷◌, Bytes, codes, ◌≡◌, ◌↔◌, refl, arith, map, ◌=s=◌}
use canterbury.Base.Int.{pos}
use canterbury.Errors.{ok, err, message}
use canterbury.Strings.Trim.{trimming}
use canterbury.Strings.Affix.{cut, contains_any}
use canterbury.Strings.Case.{equal_fold, to_lower, lower_byte}
use canterbury.Strings.Split.{split_on}
use canterbury.Time.{second, unix_epoch, unix_milli, is_zero, utc}
use canterbury.Context.{background}
use canterbury.Domain.Audit.{Event, no_interface, no_decision, no_status, no_code}
use canterbury.Domain.Audit.Identifier.{new_event_id}
use canterbury.Health.{
  Checker, HealthService, HealthResult, status_serving, status_not_serving, check, check_all,
  resolve,
}
use canterbury.Health.Laws.{AllServing, SomeNotServing, check-resolved}
use canterbury.DevAuth.{
  Claims, MintOptions, DevAuthService, format_audiences, expiry_for_ttl, mint_token,
}
use canterbury.AuditLog.{
  AuditService, ulid_generator, stamp, identify, recorded, record_identified, record_event,
}
use canterbury.AuditLog.Laws.{IsComplete, record_event-IsComplete}
use canterbury.AuditLog.Ulid.{
  Entropy, encode_digit, encode_time, encode_five, encode_ulid, in_range, new_ulid, decode,
  decode-encode_time,
}
use canterbury.Bearer.{
  Header, token_part, scheme_and_token, parse_credentials, gateway_value, bearer_token,
}
use canterbury.Bearer.Trace.{is_hex, all_zero, trace_of_parts, trace_id_from_header}

abbrev up : Checker
up ctx = ok status_serving

abbrev lost : Checker
lost ctx = err (message "timeout")

abbrev down : Checker
down ctx = ok status_not_serving

abbrev health : HealthService
health = record { checkers = up ∷ lost ∷ down ∷ up ∷ [] }

abbrev health_result : HealthResult
health_result = record { status = status_not_serving; errors = message "timeout" ∷ [] }

checked : check health background ≡ ok health_result
unfolding check check_all resolve
checked = refl

check-resolved_example :
    ((health_result.status ≡ status_serving) ↔ AllServing background health.checkers)
    × ((health_result.status ≡ status_not_serving) ↔ SomeNotServing background health.checkers)
check-resolved_example = check-resolved background health checked

abbrev minting : DevAuthService
minting = record {
  minter = λ ctx claims issued_at expires_at.
      ok (record { jwt = claims.subject; expires_at = expires_at });
  now = unix_epoch;
}

abbrev claims : Claims
claims = record { subject = codes " alice"; audiences = codes "vault " ∷ [] }

abbrev options : MintOptions
options = record { ttl = pos second }

minted :
    mint_token minting background claims options
    ≡ ok (record { jwt = codes "alice"; expires_at = 62_135_596_801_000_000_000 })
unfolding mint_token format_audiences expiry_for_ttl trimming
minted = refl

abbrev numbers : List ℕ
numbers =
    0 ∷ 1 ∷ 2 ∷ 3 ∷ 4 ∷ 5 ∷ 6 ∷ 7 ∷ 8 ∷ 9 ∷ 10 ∷ 11 ∷ 12 ∷ 13 ∷ 14 ∷ 15 ∷ 16 ∷ 17 ∷ 18 ∷ 19 ∷ 20
    ∷ 21 ∷ 22 ∷ 23 ∷ 24 ∷ 25 ∷ 26 ∷ 27 ∷ 28 ∷ 29 ∷ 30 ∷ 31 ∷ []

-- The table of the source.
ulid_encoding : map encode_digit numbers ≡ codes "0123456789ABCDEFGHJKMNPQRSTVWXYZ"
unfolding encode_digit
ulid_encoding = refl

decode-encode_time_example : decode 0 (encode_time 1_777_818_343_123) ≡ 1_777_818_343_123
decode-encode_time_example = decode-encode_time 1_777_818_343_123 (omega arith)

abbrev random : Entropy
random = record { e0 = 255; e1 = 1; e2 = 2; e3 = 3; e4 = 4; e5 = 5; e6 = 6; e7 = 7; e8 = 8; e9 = 9 }

abbrev audit : AuditService
audit = record {
  now = unix_epoch;
  id_generator = ulid_generator (ok random);
  recorder = λ ctx event. none;
}

abbrev event : Event
event = record {
  id = [];
  occurred_at = 0;
  request_id = [];
  trace_id = [];
  actor = record { issuer = []; subject_hash = []; scopes = [] };
  client = record { interface = no_interface; user_agent = []; remote_address_hash = [] };
  policy = record { mapping_checksum = []; matched_scopes = []; decision = no_decision };
  outcome = record { status = no_status; code = no_code; duration = pos 0 };
  details = none;
}

recorded_event : record_event audit background event ≡ none
unfolding record_event record_identified recorded identify stamp is_zero utc ulid_generator new_ulid
    in_range unix_milli encode_ulid encode_time encode_five encode_digit new_event_id trimming
recorded_event = refl

record_event-IsComplete_example :
    (recorded_as : Event) × (audit.recorder background recorded_as ≡ none)
    × IsComplete audit event recorded_as
record_event-IsComplete_example =
    record_event-IsComplete (ok random) audit refl background event recorded_event

abbrev header : Header
header name = codes "bearer  abc.def " ∷ []

accepted : bearer_token header ≡ ok (codes "abc.def")
unfolding bearer_token gateway_value parse_credentials scheme_and_token token_part cut equal_fold
    lower_byte trimming contains_any ◌=s=◌
accepted = refl

abbrev traceparent : Bytes
traceparent = codes "00-4BF92F3577B34DA6A3CE929D0E0E4736-00f067aa0ba902b7-01"

traced : trace_id_from_header (λ s. s) traceparent ≡ some (codes "4bf92f3577b34da6a3ce929d0e0e4736")
unfolding trace_id_from_header trace_of_parts split_on is_hex all_zero equal_fold to_lower
    lower_byte trimming ◌=s=◌
traced = refl
