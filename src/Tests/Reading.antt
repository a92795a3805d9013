-- ===== src/Tests/Reading.antt =====
-- A read of a note from the request to the answer.
use canterbury.Base.{true, some, [], ◌∷◌, Bytes, codes, ◌≡◌, refl, ◌=s=◌}
use canterbury.Strings.Affix.{has_prefix, has_suffix, contains, trim_prefix}
use canterbury.Strings.Trim.{trimming}
use canterbury.Strings.Split.{split_on, join}
use canterbury.Strings.Clean.{clean, run, step, go_up}
use canterbury.Context.{background, principal_from_context}
use canterbury.Domain.Vault.Access.{new_scope}
use canterbury.Domain.Vault.Note.{Value}
use canterbury.Domain.Vault.NotePath.{new_note_path}
use canterbury.Base.Member.{elem}
use canterbury.Service.Exec.{record_event}
use canterbury.Service.Events.{outcome}
use canterbury.Service.Read.{require_principal}
use canterbury.Service.Sanitize.{
  is_reserved_frontmatter_key, without_reserved, sanitize_frontmatter,
}
use canterbury.VaultFs.Paths.{
  elements, drop_common, rel, is_within_root, join_path, is_hidden_or_system_path,
  is_hidden_or_system_name, base, trim_slashes, ext, join_vault_path, resolved,
}
use canterbury.VaultFs.Frontmatter.{
  parse_note_document, split_frontmatter, split_lines, fenced, find_fence, split_after,
  is_frontmatter_fence, trim_line, parse_note_frontmatter, build_access, build_scopes, build_tags,
}
use canterbury.VaultFs.Read.{read_note, read_file_note, note_of, title_from_note_path}
use canterbury.Strings.Case.{to_lower, lower_byte}
use canterbury.VaultFs.Released.{file_repository, file_service}
use canterbury.Errors.{ok}
use canterbury.VaultRpc.Message.{
  normalize_struct_value, normalize_struct_map, frontmatter_to_proto, note_ref_to_proto,
  note_metadata_to_proto,
}
use canterbury.VaultRpc.AuthContext.{wrap_unary}
use canterbury.VaultRpc.Released.{vault_application}
use canterbury.Tests.Released.{start}
use canterbury.Time.{unix_milli, is_zero, utc}
use canterbury.Context.{with_principal, with_metadata}
use canterbury.Domain.Audit.Identifier.{new_event_id, new_request_id}
use canterbury.Auth.Hash.{hash_subject, hex}
use canterbury.Auth.ScopeMapper.{MappingSubject, find, lookup_scopes}
use canterbury.Auth.Authenticator.{authenticate, resolve, token_requirements, mapping_checksum}
use canterbury.AuthJwt.{
  verify_token, parser_options, required, classifying, claims_from, expiry_or_zero,
}
use canterbury.AuditLog as AuditLog
use canterbury.AuditLog.{record_identified, recorded, identify, stamp, ulid_generator}
use canterbury.AuditLog.Ulid.{
  new_ulid, in_range, encode_ulid, encode_time, encode_five, encode_digit,
}
use canterbury.Bearer.{
  set_header, bearer_token_from_header, service_value, parse_credentials, scheme_and_token,
  token_part,
}
use canterbury.Bearer.Trace.{trace_id_from_header, trace_of_parts}
use canterbury.Strings.Affix.{cut, contains_any as has_any_of}
use canterbury.Strings.Case.{equal_fold}
use canterbury.VaultRpc.AuditContext.{
  Response, header_request_id, wrap_audit, pass_on, request_id, request_id_from_header, trace_id,
  accepted_trace_id, user_agent_from_header, hash_remote_address, client, tag_answer,
  set_request_id, new_response,
}
use canterbury.VaultRpc.Chain.{rpc, authenticated, respond}
use canterbury.VaultService.{authentication_of, token_verifier, serve_read}
use canterbury.VaultService.Reads.{IsRevealed, serve_read-IsGranted}
use canterbury.Service.Read as ServiceRead
use canterbury.Service.Read.{release, record_read_note_allowed, read_allowed_event}
use canterbury.Domain.Vault.Access.{allows_any, has_scope, has_scope_loop}
use canterbury.VaultRpc.Message.{NoteMessage, note_to_proto}
use canterbury.VaultRpc.Handlers.{handle_read_note, read_answer, note_answer}
use canterbury.VaultService.Released.{IsGranted}
use canterbury.Service.Events.{create_event}
use canterbury.Tests.Rpc.{proto}
use canterbury.Tests.Program.{env, cfg, server, built, header, peer}

abbrev message : NoteMessage proto
message = record {
  ref = codes "a.md";
  metadata = record {
    title = codes "a";
    tags = [];
    size_bytes = 12;
    modified_at = 5;
    properties = (codes "draft", Value.boolean true) ∷ [];
  };
  content = codes "body";
}

abbrev note_res : Response (NoteMessage proto)
note_res = record {
  msg = message;
  header = set_header header_request_id (codes "req") (λ name. []);
}

read_answered :
    serve_read env server header peer (some (codes "a.md")) background start
    ≡ (ok note_res, (serve_read env server header peer (some (codes "a.md")) background start).1)
unfolding rpc wrap_audit request_id request_id_from_header new_request_id pass_on client
    hash_remote_address user_agent_from_header trace_id trace_id_from_header trace_of_parts
    accepted_trace_id set_header authenticated wrap_unary bearer_token_from_header service_value
    parse_credentials scheme_and_token token_part cut equal_fold has_any_of authentication_of
    authenticate token_requirements token_verifier verify_token parser_options required classifying
    claims_from expiry_or_zero resolve lookup_scopes find hash_subject hex mapping_checksum
    with_metadata with_principal respond new_response tag_answer set_request_id
    AuditLog.record_event record_identified recorded identify stamp is_zero utc ulid_generator
    new_ulid in_range unix_milli encode_ulid encode_time encode_five encode_digit new_event_id
    to_lower lower_byte new_note_path contains has_suffix read_note read_file_note note_of
    title_from_note_path base trim_slashes ext join_path join_vault_path resolved
    is_hidden_or_system_path is_hidden_or_system_name is_within_root rel clean run step go_up
    split_on join elements drop_common has_prefix ◌=s=◌ parse_note_document split_frontmatter
    split_lines fenced find_fence split_after is_frontmatter_fence trim_line parse_note_frontmatter
    build_access build_scopes build_tags new_scope trimming require_principal record_event outcome
    sanitize_frontmatter without_reserved is_reserved_frontmatter_key principal_from_context
    file_service file_repository elem trim_prefix vault_application note_metadata_to_proto
    note_ref_to_proto frontmatter_to_proto normalize_struct_map normalize_struct_value create_event
    serve_read handle_read_note read_answer note_answer note_to_proto ServiceRead.read_note release
    allows_any has_scope has_scope_loop record_read_note_allowed read_allowed_event
read_answered = refl

serve_read-IsGranted_example :
    (token : Bytes) × (subject : MappingSubject) × (bearer_token_from_header header ≡ ok token)
    × IsGranted env background cfg token subject
    × IsRevealed env background cfg subject (some (codes "a.md")) message
serve_read-IsGranted_example =
    serve_read-IsGranted env background cfg server header peer (some (codes "a.md")) background
      start built read_answered
