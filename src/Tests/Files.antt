-- ===== src/Tests/Files.antt =====
-- The files of the audit log, the file of the scope mapping, and the verification of a token.
use canterbury.Base.{
  ℕ, ◌*◌, ◌+◌, ◌<◌, ◌⊎◌, arith, none, some, [], ◌∷◌, Bytes, codes, ◌≡◌, refl, ◌↔◌, All, length,
  subst,
}
use canterbury.Base.Int.{pos}
use canterbury.Strings.Trim.{trimming}
use canterbury.Strings.Decimal.{itoa, digits}
use canterbury.Strings.Utf8.{rune_size}
use canterbury.Errors.{ok, err, ok-inj, sentinel, invalid_audit_root}
use canterbury.Time.{Time, second, is_zero, utc}
use canterbury.Time.Civil.{date_of, date_of_days, pad, fraction, without_zeros, rfc3339_nano}
use canterbury.Context.{background}
use canterbury.Domain.Audit.{
  Event, no_interface, no_decision, no_status, no_code, event_type, details_type,
  authentication_failed,
}
use canterbury.Encoding.Json.{
  print, print_elements, print_members, print_string, print_number, strings, escape_from,
  escape_rune, escape_byte,
}
use canterbury.Auth.Hash.{hex}
use canterbury.AuditFs.Data.{
  event_data_from_domain, actor_data_from_domain, policy_data_from_domain, strings_from_scopes,
  event_type_from_domain, type_text, interface_text, decision_text, status_text, code_text,
}
use canterbury.AuditFs.Data.Marshal.{
  event_json, event_members, actor_json, client_json, policy_json, outcome_json, details_json,
  non_empty_member,
}
use canterbury.AuditFs.Writer.{
  generate_writer_id, host_component, Recorder, Machine, RootFiles, new_recorder,
  configured_writer_id, writer_id_for, made,
}
use canterbury.AuditFs.Writer.Laws.{IsWriterId, new_recorder-IsWriterId}
use canterbury.AuditFs.Files.{
  record_data, open_audit_file, append_jsonl, append_line, written_all, line_of, sync_and_close,
  Store, Disk, record_in_file,
}
use canterbury.AuditFs.Files.Laws.{IsWritten, record_in_file-prefix}
use canterbury.AuditFs.Files.Log.{
  nothing, success, read_lines, lines_at, entries_of, read_lines-Recorded,
}
use canterbury.Auth.ScopeMapper.{MappingDocument}
use canterbury.AuthFs.{MappingFile, Toml, load_mapping}
use canterbury.AuthFs.Laws.{IsDocument, load_mapping_iff}
use canterbury.Auth.Authenticator.{TokenClaims, TokenRequirements}
use canterbury.AuthJwt.{
  JwtClaims, Jwt, Verifier, verify_token, classifying, claims_from, expiry_or_zero,
}
use canterbury.AuthJwt.Laws.{IsVerified, verify_token-IsVerified}

-- 2025-11-26T04:20:54.0015Z
abbrev instant : Time
instant = 63_899_727_654 * second + 1_500_000

text_of_instant : rfc3339_nano instant ≡ codes "2025-11-26T04:20:54.0015Z"
unfolding rfc3339_nano date_of date_of_days pad fraction without_zeros itoa digits
text_of_instant = refl

abbrev recorder : Recorder
recorder = record { root = codes "/a"; writer_id = codes "w" }

abbrev event : Event
event = record {
  id = codes "e1";
  occurred_at = instant;
  request_id = codes "r";
  trace_id = [];
  actor = record { issuer = codes "i"; subject_hash = codes "h"; scopes = [] };
  client = record { interface = no_interface; user_agent = []; remote_address_hash = [] };
  policy = record { mapping_checksum = []; matched_scopes = []; decision = no_decision };
  outcome = record { status = no_status; code = no_code; duration = pos 1 };
  details = some (authentication_failed "expired_token");
}

-- A disk that writes the half of a line, and says so.
abbrev full_disk : Disk
full_disk = record {
  mkdir_all = λ dir. none;
  open_append = λ path. none;
  write = λ path data'. (9, none);
  sync = λ path. none;
  close = λ path. none;
}

abbrev good_disk : Disk
good_disk = record full_disk { write = λ path data'. (length data', none) }

abbrev empty_store : Store
empty_store path = []

record_in_file-prefix_example :
    let store' = (record_in_file full_disk recorder background event empty_store).1 in
    (store' ≡ empty_store)
    ⊎ ((n : ℕ) × (path : Bytes) × (line : Bytes) × IsWritten full_disk recorder empty_store event n
          path line store')
record_in_file-prefix_example =
    record_in_file-prefix full_disk recorder empty_store background event

abbrev stored : Recorder → Store → Store
stored r store = (record_in_file good_disk r background event store).1

success_run :
    (r : Recorder) (store : Store)
    → record_in_file good_disk r background event store ≡ (none, stored r store)
unfolding record_in_file record_data open_audit_file append_jsonl append_line written_all line_of
    event_json event_data_from_domain actor_data_from_domain policy_data_from_domain
    strings_from_scopes event_type_from_domain event_type details_type type_text trimming utc
    is_zero date_of date_of_days sync_and_close print print_elements print_members print_string
    print_number strings escape_from escape_rune escape_byte rune_size event_members actor_json
    client_json policy_json outcome_json details_json non_empty_member interface_text decision_text
    status_text code_text rfc3339_nano pad fraction without_zeros itoa digits
success_run r store = refl

-- A second writer below the same directory.
abbrev other : Recorder
other = record { root = codes "/a"; writer_id = codes "v" }

abbrev shared : Store
shared = stored other (stored recorder empty_store)

abbrev log_path : Bytes
log_path = codes "/a/2025/11/2025_11_26_w_audit.jsonl"

read_lines-Recorded_example :
    read_lines (shared log_path)
    ≡ lines_at log_path (entries_of ((other, event) ∷ (recorder, event) ∷ []))
read_lines-Recorded_example =
    read_lines-Recorded ((other, event) ∷ (recorder, event) ∷ []) shared
      (success good_disk other background event
        (success good_disk recorder background event nothing (success_run recorder empty_store))
        (success_run other (stored recorder empty_store)))
      log_path

abbrev machine : Machine
machine = record {
  hostname = err (sentinel invalid_audit_root);
  pid = 7;
  random = ok (1 ∷ 171 ∷ []);
}

abbrev root_files : RootFiles
root_files = record { abs = λ p. ok p; mkdir_all = λ p. none; eval_symlinks = λ p. ok p }

made_recorder :
    new_recorder root_files machine none (codes "/a")
    ≡ ok (record { root = codes "/a"; writer_id = codes "host-pid7-01ab" })
unfolding new_recorder configured_writer_id writer_id_for generate_writer_id host_component made
    trimming itoa digits hex
made_recorder = refl

random_bytes : (bytes : Bytes) → machine.random ≡ ok bytes → All (λ b. b < 256) bytes
random_bytes bytes h = subst (All (λ b. b < 256)) (ok-inj h) (omega arith, (omega arith, tt))

new_recorder-IsWriterId_example : IsWriterId (codes "host-pid7-01ab")
new_recorder-IsWriterId_example =
    new_recorder-IsWriterId root_files machine none (codes "/a") random_bytes made_recorder

abbrev file : MappingFile
file = record {
  subjects =
      record { issuer = codes "i"; subject = codes "alice"; scopes = codes " team " ∷ [] } ∷ [];
}

abbrev toml : Toml
toml bytes = ok (file, [])

abbrev document : MappingDocument
document = record {
  checksum = codes "sha256:";
  subjects =
      record { issuer = codes "i"; subject = codes "alice"; scopes = codes "team" ∷ [] } ∷ [];
}

load_mapping_iff_example :
    (load_mapping (λ s. s) (λ p. ok []) toml (record { file_path = codes "m" }) background
      ≡ ok document)
    ↔ IsDocument (λ s. s) (λ p. ok []) toml (record { file_path = codes "m" }) background document
load_mapping_iff_example =
    load_mapping_iff (λ s. s) (λ p. ok []) toml (record { file_path = codes "m" }) background
      document

abbrev parsed : JwtClaims
parsed = record {
  get_issuer = ok (codes "i");
  get_subject = ok (codes "alice");
  get_audience = ok (codes "vault" ∷ []);
  get_expiration_time = ok none;
}

abbrev jwt : Jwt
jwt = record {
  KeyFunc = Unit {0};
  new_key_func = λ ctx url. ok tt;
  parse = λ keys options token. ok parsed;
}

abbrev verifier : Verifier jwt
verifier = record { now = 3; methods = codes "EdDSA" ∷ []; key_func = tt }

abbrev requirements : TokenRequirements
requirements = record { issuer = codes "i"; audience = codes "vault" }

abbrev claims : TokenClaims
claims = record {
  issuer = codes "i";
  subject = codes "alice";
  audiences = codes "vault" ∷ [];
  expires_at = 0;
}

verified : verify_token jwt verifier background (codes "abc") requirements ≡ ok claims
unfolding verify_token classifying claims_from expiry_or_zero
verified = refl

verify_token-IsVerified_example :
    IsVerified jwt verifier background (codes "abc") requirements claims
verify_token-IsVerified_example =
    verify_token-IsVerified jwt verifier background (codes "abc") requirements verified
