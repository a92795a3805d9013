-- ===== src/Tests/Program.antt =====
-- The vault service from its configuration, over a vault with one note.
use canterbury.Base.{none, some, [], ◌∷◌, Bytes, codes, ◌≡◌, refl, ◌=s=◌}
use canterbury.Strings.Trim.{trimming}
use canterbury.Context.{background}
use canterbury.Domain.Vault.Access.{new_scope}
use canterbury.VaultFs.Released.{file_service}
use canterbury.Errors.{ok}
use canterbury.Bearer.{Header}
use canterbury.VaultRpc.Released.{vault_application}
use canterbury.Tests.Released.{same_bytes, yaml, files, vault, tree}
use canterbury.Base.{◌+◌, if◌then◌else◌}
use canterbury.Time.{unix_epoch}
use canterbury.Auth.Hash.{hex}
use canterbury.Auth.ScopeMapper.{new_scope_mapper, add_mappings, add_mapping, find}
use canterbury.Auth.Authenticator.{Authenticator, new_authenticator}
use canterbury.AuthFs.{
  MappingFile, new_loader, load_mapping, mapping_of, compute_checksum, to_subjects, to_scopes,
}
use canterbury.AuthJwt.{Jwt, JwtClaims, Verifier, new_verifier, verifier_for, trim_methods}
use canterbury.AuditLog as AuditLog
use canterbury.AuditLog.{AuditService, new_audit_service, ulid_generator}
use canterbury.AuditLog.Ulid.{Entropy}
use canterbury.AuditFs.Writer.{
  new_recorder, configured_writer_id, normalize_explicit_writer_id, is_writer_id_char,
  writer_id_for, made,
}
use canterbury.Service.Exec.{new_service}
use canterbury.VaultFs.Read.{new_repository}
use canterbury.Bearer.{authorization}
use canterbury.VaultRpc.Handlers.{new_vault_service_handler}
use canterbury.VaultRpc.AuthContext.{new_auth_context_interceptor}
use canterbury.VaultRpc.AuditContext.{Network, header_request_id, new_audit_context_interceptor}
use canterbury.VaultService.{
  Environment, ServeConfig, VaultServer, default_vault_server_addr, allowed_methods, writer_option,
  authentication_of, token_verifier, new_audit_logger, mapper_of, new_service_authenticator,
  new_vault_service, new_vault_server,
}
use canterbury.Tests.Rpc.{proto}

abbrev pub entropy : Entropy
entropy = record { e0 = 0; e1 = 0; e2 = 0; e3 = 0; e4 = 0; e5 = 0; e6 = 0; e7 = 0; e8 = 0; e9 = 0 }

abbrev pub net : Network
net = record { split_host_port = λ address. none; parse_addr = λ a. ok a; hmac = λ key text. text }

abbrev pub user : JwtClaims
user = record {
  get_issuer = ok (codes "i");
  get_subject = ok (codes "alice");
  get_audience = ok (codes "vault" ∷ []);
  get_expiration_time = ok (some 9);
}

abbrev pub jwt : Jwt
jwt = record {
  KeyFunc = Unit {0};
  new_key_func = λ ctx url. ok tt;
  parse = λ keys options token. ok user;
}

abbrev pub mapping : MappingFile
mapping = record {
  subjects =
      record { issuer = codes "i"; subject = codes "alice"; scopes = codes "team" ∷ [] } ∷ [];
}

abbrev pub env : Environment
env = record {
  sha256 = same_bytes;
  lower_unicode = same_bytes;
  abs = λ path. ok (codes "/v");
  files = files;
  yaml = yaml;
  entries = tree;
  root_files = record { abs = λ p. ok p; mkdir_all = λ p. none; eval_symlinks = λ p. ok p };
  machine = record { hostname = ok (codes "h"); pid = 1; random = ok [] };
  answers = λ recorder ctx event. none;
  read_file = λ path. ok [];
  toml = λ bytes. ok (mapping, []);
  jwt = jwt;
  net = net;
  proto = proto;
  now = unix_epoch;
  entropy = ok entropy;
  clock = λ n. unix_epoch + n;
  random = λ n. ok entropy;
}

abbrev pub cfg : ServeConfig
cfg = record {
  addr = default_vault_server_addr;
  root = codes "/v";
  audit_root = codes "/a";
  audit_hmac_key = codes "0123456789abcdef0123456789abcdef";
  audit_writer_id = codes "w";
  auth_issuer = codes "i";
  auth_audience = codes "vault";
  auth_jwks_url = codes "u";
  auth_mapping_file = codes "m";
}

abbrev pub verifier : Verifier jwt
verifier = record { now = unix_epoch; methods = allowed_methods; key_func = tt }

abbrev pub authenticator : Authenticator
authenticator = record {
  issuer = codes "i";
  audience = codes "vault";
  scope_mapper = record {
    source_checksum = codes "sha256:";
    lookup = (record { issuer = codes "i"; subject = codes "alice" }, codes "team" ∷ []) ∷ [];
  };
  verifier = token_verifier env verifier;
}

abbrev pub audit_log : AuditService
audit_log = record {
  now = unix_epoch;
  id_generator = ulid_generator (ok entropy);
  recorder = λ ctx event. none;
}

abbrev pub server : VaultServer env
server = record {
  audit_interceptor = record {
    clock = env.clock;
    hmac_key = cfg.audit_hmac_key;
    random = env.random;
  };
  auth_interceptor = record {
    authenticator = authentication_of env authenticator;
    audit_log = AuditLog.record_event audit_log;
    clock = env.clock;
  };
  vault_service = record {
    vault =
        vault_application same_bytes same_bytes (
          file_service same_bytes files yaml vault tree (AuditLog.record_event audit_log)
            env.clock);
  };
}

pub built : new_vault_server env background cfg ≡ ok server
unfolding new_vault_server new_repository new_audit_logger writer_option new_recorder
    configured_writer_id normalize_explicit_writer_id is_writer_id_char writer_id_for made
    new_audit_service new_service_authenticator new_loader mapper_of new_scope_mapper load_mapping
    mapping_of compute_checksum hex to_subjects to_scopes new_scope add_mappings add_mapping find
    ◌=s=◌ new_verifier trim_methods verifier_for new_authenticator new_auth_context_interceptor
    new_vault_service new_service new_vault_service_handler new_audit_context_interceptor
    file_service trimming
built = refl

abbrev pub header : Header
header name =
    if name =s= authorization
    then codes "Bearer abc" ∷ []
    else if name =s= header_request_id
    then codes "req" ∷ []
    else []

abbrev pub peer : Bytes
peer = codes "127.0.0.1:9"
