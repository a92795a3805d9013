-- ===== src/Tests/Searching.antt =====
-- A search from the request to the answer.
use canterbury.Base.{◌⊎◌, true, [], ◌∷◌, Bytes, codes, ◌≡◌, refl, ◌=s=◌}
use canterbury.Strings.Affix.{has_prefix, has_suffix, contains, trim_prefix}
use canterbury.Strings.Trim.{trimming}
use canterbury.Strings.Split.{split_on, join}
use canterbury.Strings.Clean.{clean, run, step, go_up}
use canterbury.Context.{Context, background, principal_from_context}
use canterbury.Domain.Vault.Access.{new_scope}
use canterbury.Domain.Vault.Note.{Value}
use canterbury.Domain.Vault.Search.{SearchNotesQuery, normalized_sort, normalized_limit}
use canterbury.Domain.Vault.NotePath.{new_note_path}
use canterbury.Base.Member.{elem}
use canterbury.Service.Exec.{Exec, record_event}
use canterbury.Service.Events.{outcome}
use canterbury.Service.Read.{require_principal}
use canterbury.Service.Sanitize.{
  is_reserved_frontmatter_key, without_reserved, sanitize_frontmatter,
}
use canterbury.Service.Search.{
  record_search_notes_completed, restrict, sanitize_page, sanitize_results, search_as, search_notes,
}
use canterbury.VaultFs.Paths.{
  elements, drop_common, rel, is_within_root, join_path, is_hidden_or_system_path,
  is_hidden_or_system_name, base, trim_slashes, ext, join_vault_path, resolved,
}
use canterbury.VaultFs.Frontmatter.{
  parse_note_document, split_frontmatter, split_lines, fenced, find_fence, split_after,
  is_frontmatter_fence, trim_line, parse_note_frontmatter, build_access, build_scopes, build_tags,
}
use canterbury.VaultFs.Read.{read_note, read_file_note, note_of, title_from_note_path}
use canterbury.VaultFs.Search as FileSearch
use canterbury.VaultFs.Search.{walk, visit_file, should_skip_file, collect}
use canterbury.Strings.Case.{to_lower, lower_byte}
use canterbury.Strings.Utf8.{
  fields, rune_size, rune_count, rune_count_from, split_spaces, without_empty,
}
use canterbury.VaultFs.Snippet
use canterbury.VaultFs.Snippet.{
  build_snippet, truncate_snippet, normalize_snippet_text, cut_from, with_ellipses,
  clamp_to_rune_boundary, previous_rune_boundary, extend, start_of, first_term_index, first_index,
}
use canterbury.VaultFs.Sort.{sort_by_query, sort_by_path_asc, sort_func, insert}
use canterbury.VaultFs.Pagination.{paginate_from_query, parse_cursor, page_at}
use canterbury.VaultFs.Filters.{
  match_query, all_of, match_text, match_path, match_tags, match_access, include_path_prefixes,
  exclude_path_prefixes, match_any_normalized_path_prefix, matches_some_prefix, normalize_strings,
  contains_all_tags, contains_some_tags, contains_all_scopes, contains_some_scopes, normalize_set,
  contains_any, normalize_scope_value,
}
use canterbury.VaultFs.Released.{file_repository, file_service}
use canterbury.Errors.{ok, Error}
use canterbury.VaultRpc.Request.{apply_query, apply_filter, apply_sort, proto_to_search_notes_query}
use canterbury.VaultRpc.Request.Laws.{IsRequested}
use canterbury.VaultRpc.Message.{
  normalize_struct_value, normalize_struct_map, frontmatter_to_proto, note_ref_to_proto,
  note_metadata_to_proto, search_results_to_proto,
}
use canterbury.VaultRpc.Handlers.{
  SearchNotesResponse, handle_search_notes, page_answer, search_answer,
}
use canterbury.VaultRpc.AuthContext.{wrap_unary}
use canterbury.VaultRpc.Released.{vault_application}
use canterbury.Tests.Released.{same_bytes, start}
use canterbury.Base.{arith}
use canterbury.Time.{unix_milli, is_zero, utc}
use canterbury.Context.{with_principal, with_metadata}
use canterbury.Errors.{err}
use canterbury.Domain.Audit.Identifier.{new_event_id, new_request_id}
use canterbury.Auth.Hash.{hash_subject, hex}
use canterbury.Auth.ScopeMapper.{MappingSubject, find, lookup_scopes}
use canterbury.Auth.Authenticator.{authenticate, resolve, token_requirements, mapping_checksum}
use canterbury.AuthJwt.{
  verify_token, parser_options, required, classifying, claims_from, expiry_or_zero,
}
use canterbury.AuditLog as AuditLog
use canterbury.AuditLog.{record_identified, recorded, identify, stamp, ulid_generator}
use canterbury.AuditLog.Ulid.{
  new_ulid, in_range, encode_ulid, encode_time, encode_five, encode_digit,
}
use canterbury.VaultFs.Read.{new_repository}
use canterbury.Bearer.{
  set_header, bearer_token_from_header, service_value, parse_credentials, scheme_and_token,
  token_part,
}
use canterbury.Bearer.Trace.{trace_id_from_header, trace_of_parts}
use canterbury.Strings.Affix.{cut, contains_any as has_any_of}
use canterbury.Strings.Case.{equal_fold}
use canterbury.VaultRpc.AuditContext.{
  handle_audit_interceptor_error, Response, header_request_id, wrap_audit, pass_on, request_id,
  request_id_from_header, trace_id, accepted_trace_id, user_agent_from_header, hash_remote_address,
  client, tag_answer, set_request_id, new_response,
}
use canterbury.Domain.Audit.Identifier.{RequestId}
use canterbury.VaultRpc.AuditContext.Laws.{
  IsRequestId, IsTagged, IsPassedOn, IsStopped, wrap_audit-IsTagged,
}
use canterbury.VaultRpc.Chain.{IsServed, rpc-IsServed, rpc, authenticated, respond}
use canterbury.VaultService.{authentication_of, token_verifier, serve_search}
use canterbury.VaultService.Released.{IsGranted, IsSearched, MakesAbsolute, serve_search-IsGranted}
use canterbury.Service.Search.{search_completed_event}
use canterbury.Service.Events.{create_event}
use canterbury.Tests.Rpc.{proto, everything}
use canterbury.Tests.Program.{net, env, cfg, server, built, header, peer}

abbrev response : SearchNotesResponse proto
response = record {
  results =
      record {
        ref = codes "a.md";
        metadata = record {
          title = codes "a";
          tags = [];
          size_bytes = 12;
          modified_at = 5;
          properties = (codes "draft", Value.boolean true) ∷ [];
        };
        snippet = codes "body";
      }
      ∷ [];
  next_page_token = [];
}

abbrev res : Response (SearchNotesResponse proto)
res = record { msg = response; header = set_header header_request_id (codes "req") (λ name. []) }

answered :
    serve_search env server header peer everything background start
    ≡ (ok res, (serve_search env server header peer everything background start).1)
unfolding serve_search rpc wrap_audit request_id request_id_from_header new_request_id pass_on
    client hash_remote_address user_agent_from_header trace_id trace_id_from_header trace_of_parts
    accepted_trace_id set_header authenticated wrap_unary bearer_token_from_header service_value
    parse_credentials scheme_and_token token_part cut equal_fold has_any_of authentication_of
    authenticate token_requirements token_verifier verify_token parser_options required classifying
    claims_from expiry_or_zero resolve lookup_scopes find hash_subject hex mapping_checksum
    with_metadata with_principal respond new_response tag_answer set_request_id
    AuditLog.record_event record_identified recorded identify stamp is_zero utc ulid_generator
    new_ulid in_range unix_milli encode_ulid encode_time encode_five encode_digit new_event_id
    FileSearch.search_notes sort_by_query sort_by_path_asc sort_func insert normalized_sort
    paginate_from_query parse_cursor page_at normalized_limit walk visit_file should_skip_file
    to_lower lower_byte new_note_path contains has_suffix collect match_query all_of match_text
    match_path match_tags match_access include_path_prefixes exclude_path_prefixes
    match_any_normalized_path_prefix matches_some_prefix normalize_strings contains_all_tags
    contains_some_tags contains_all_scopes contains_some_scopes normalize_set build_snippet start_of
    Snippet.truncated first_term_index first_index normalize_snippet_text fields split_spaces
    without_empty truncate_snippet cut_from with_ellipses clamp_to_rune_boundary
    previous_rune_boundary extend rune_size rune_count rune_count_from read_note read_file_note
    note_of title_from_note_path base trim_slashes ext join_path join_vault_path resolved
    is_hidden_or_system_path is_hidden_or_system_name is_within_root rel clean run step go_up
    split_on join elements drop_common has_prefix ◌=s=◌ parse_note_document split_frontmatter
    split_lines fenced find_fence split_after is_frontmatter_fence trim_line parse_note_frontmatter
    build_access build_scopes build_tags new_scope trimming search_notes require_principal search_as
    record_search_notes_completed record_event outcome sanitize_page sanitize_results
    sanitize_frontmatter without_reserved is_reserved_frontmatter_key principal_from_context
    restrict file_service file_repository contains_any normalize_scope_value elem trim_prefix
    handle_search_notes vault_application search_answer page_answer search_results_to_proto
    note_metadata_to_proto note_ref_to_proto frontmatter_to_proto normalize_struct_map
    normalize_struct_value proto_to_search_notes_query apply_query apply_filter apply_sort
    search_completed_event create_event
answered = refl

makes_absolute : MakesAbsolute env
unfolding new_repository has_prefix
makes_absolute root repository h = ground arith

serve_search-IsGranted_example :
    (token : Bytes) × (subject : MappingSubject) × (query : SearchNotesQuery)
    × (bearer_token_from_header header ≡ ok token)
    × IsGranted env background cfg token subject
    × IsRequested everything query
    × IsSearched env background cfg background subject query response
        (serve_search env server header peer everything background start).1
serve_search-IsGranted_example =
    serve_search-IsGranted env background cfg server header peer everything background start
      makes_absolute built answered

abbrev search_all : Context → Exec (SearchNotesResponse proto)
search_all c = handle_search_notes proto server.vault_service c everything

rpc-IsServed_example :
    IsServed same_bytes net server.audit_interceptor server.auth_interceptor header peer search_all
      background res
      (serve_search env server header peer everything background start).1
unfolding serve_search
rpc-IsServed_example =
    rpc-IsServed same_bytes net server.audit_interceptor server.auth_interceptor header peer
      search_all background start answered

wrap_audit-IsTagged_example :
    let next =
      authenticated same_bytes net server.audit_interceptor server.auth_interceptor header peer
        search_all in
    let result =
      wrap_audit same_bytes net server.audit_interceptor header peer next background start in
    let (id, w') = request_id server.audit_interceptor header start in
    ((e : Error) × (id ≡ err e) × (result ≡ (err (handle_audit_interceptor_error e), w')))
    ⊎ ((id' : RequestId) × (id ≡ ok id')
        × IsRequestId id'
        × IsTagged id' result.0
        × (IsPassedOn same_bytes net server.audit_interceptor header peer next background start id'
              w' result
            ⊎ IsStopped same_bytes net server.audit_interceptor header peer next background start
                id' w' result))
wrap_audit-IsTagged_example =
    wrap_audit-IsTagged same_bytes net server.audit_interceptor header peer
      (authenticated same_bytes net server.audit_interceptor server.auth_interceptor header peer
        search_all)
      background start
