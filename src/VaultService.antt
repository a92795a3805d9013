-- ===== src/VaultService.antt =====
-- cmd/vault-service/main.go: the service is put together from its configuration. What a process gets
-- from outside is the environment; the HTTP server and the reflection service are left out.
pub mod Built
pub mod Released
pub mod Reads
pub mod Lifecycle
pub mod Healthcheck
use canterbury.Base.{ℕ, Option, none, some, List, [], ◌∷◌, Bytes, codes, length, ltb, if◌then◌else◌}
use canterbury.Strings.Trim.{is_empty, trim_space}
use canterbury.Errors.{Result, ok, err, message, wrapping, ◌>>=◌}
use canterbury.Time.{Time}
use canterbury.Context.{Context}
use canterbury.AuditFs.Writer as AuditWriter
use canterbury.AuditFs.Writer.{RootFiles, Machine, new_recorder}
use canterbury.AuditLog as AuditLog
use canterbury.AuditLog.{new_audit_service, record_event}
use canterbury.AuditLog.Ulid.{Entropy}
use canterbury.Auth.ScopeMapper.{ScopeMapper, new_scope_mapper}
use canterbury.Auth.Authenticator.{
  Authenticator, TokenVerifier, new_authenticator, authenticate, mapping_checksum,
}
use canterbury.AuthFs.{Loader, Toml, new_loader, load_mapping}
use canterbury.AuthJwt.{Jwt, Verifier, new_verifier, verify_token}
use canterbury.Service.Exec.{AuditLogger, Exec, new_service}
use canterbury.VaultFs.Paths.{Files}
use canterbury.VaultFs.Frontmatter.{Yaml}
use canterbury.VaultFs.Read.{Repository, new_repository}
use canterbury.VaultFs.Search.{Entries}
use canterbury.VaultFs.Released.{file_repository}
use canterbury.Bearer.{Header}
use canterbury.VaultRpc.Request.{SearchNotesRequest}
use canterbury.VaultRpc.Message.{Protocol, NoteMessage}
use canterbury.VaultRpc.Handlers.{
  VaultServiceHandler, SearchNotesResponse, new_vault_service_handler, handle_read_note,
  handle_search_notes,
}
use canterbury.VaultRpc.Released.{vault_application}
use canterbury.VaultRpc.AuthContext.{
  Authentication, AuthContextInterceptor, new_auth_context_interceptor,
}
use canterbury.VaultRpc.AuditContext.{
  Network, AuditContextInterceptor, Response, new_audit_context_interceptor,
}
use canterbury.VaultRpc.Chain.{rpc}

pub record ServeConfig : Type 0 where
  pub addr : Bytes
  pub root : Bytes
  pub audit_root : Bytes
  pub audit_hmac_key : Bytes
  pub audit_writer_id : Bytes
  pub auth_issuer : Bytes
  pub auth_audience : Bytes
  pub auth_jwks_url : Bytes
  pub auth_mapping_file : Bytes

-- `HMACKey.Decode`; `base64.StdEncoding.DecodeString` is a parameter.
unfoldable pub decode_hmac_key : (Bytes → Result Bytes) → Bytes → Result Bytes
decode_hmac_key decode_string value =
    let trimmed = trim_space value in
    if is_empty trimmed
    then err (message "HMAC key is required")
    else wrapping "HMAC key must be base64 encoded" (decode_string trimmed) >>= λ decoded.
        if ltb (length decoded) 32
        then err (message "HMAC key must decode to at least 32 bytes")
        else ok decoded

abbrev pub default_vault_server_addr : Bytes
default_vault_server_addr = codes "127.0.0.1:50051"

-- `envconfig.Process` fills a configuration from the variables of the environment.
unfoldable pub load_serve_config :
    (ServeConfig → Result ServeConfig) → List Bytes → ServeConfig → Result ServeConfig
load_serve_config process (argument ∷ args) zero_config = err (message "unexpected serve argument")
load_serve_config process [] zero_config =
    process (record zero_config { addr = default_vault_server_addr }) >>= λ cfg.
    let trimmed = trim_space cfg.addr in
    if is_empty trimmed
    then err (message "vault service address must not be empty")
    else ok (record cfg { addr = trimmed })

-- The file systems and the libraries, the clocks and the random bytes. `answers` tells how each
-- record of the recorder of files ends.
pub record Environment : Type 1 where
  pub sha256 : Bytes → Bytes
  pub lower_unicode : Bytes → Bytes
  pub abs : Bytes → Result Bytes
  pub files : Files
  pub yaml : Yaml
  pub entries : Entries
  pub root_files : RootFiles
  pub machine : Machine
  pub answers : AuditWriter.Recorder → AuditLog.Recorder
  pub read_file : Bytes → Result Bytes
  pub toml : Toml
  pub jwt : Jwt
  pub net : Network
  pub proto : Protocol
  pub now : Time
  pub entropy : Result Entropy
  pub clock : ℕ → Time
  pub random : ℕ → Result Entropy

-- An option where the text is not empty.
unfoldable pub writer_option : Bytes → Option Bytes
writer_option id = if is_empty id then none else some id

-- `[]string{"EdDSA", "ES256"}`
abbrev pub allowed_methods : List Bytes
allowed_methods = codes "EdDSA" ∷ codes "ES256" ∷ []

module _ (env : Environment) where
  -- The interface of the interceptor, filled by the authenticator.
  unfoldable pub authentication_of : Authenticator → Authentication
  authentication_of a = record {
    authenticate = λ ctx token. authenticate env.sha256 a ctx token;
    mapping_checksum = mapping_checksum a;
  }

  -- The interface of the authenticator, filled by the verifier.
  unfoldable pub token_verifier : Verifier env.jwt → TokenVerifier
  token_verifier verifier ctx token requirements =
      verify_token env.jwt verifier ctx token requirements

  pub record VaultServer : Type 0 where
    pub audit_interceptor : AuditContextInterceptor
    pub auth_interceptor : AuthContextInterceptor
    pub vault_service : VaultServiceHandler

  unfoldable pub new_audit_logger : ServeConfig → Result AuditLogger
  new_audit_logger cfg =
      wrapping "initialize audit recorder"
        (new_recorder env.root_files env.machine (writer_option cfg.audit_writer_id) cfg.audit_root)
      >>= λ recorder.
          wrapping "initialize audit log"
            (new_audit_service env.now env.entropy (some (env.answers recorder)))
          >>= λ audit_log. ok (record_event audit_log)

  unfoldable pub mapper_of : Context → Loader → Result ScopeMapper
  mapper_of ctx loader =
      new_scope_mapper ctx (some (load_mapping env.sha256 env.read_file env.toml loader))

  unfoldable pub new_service_authenticator : Context → ServeConfig → Result Authenticator
  new_service_authenticator ctx cfg =
      wrapping "initialize auth mapping loader" (new_loader cfg.auth_mapping_file) >>= λ loader.
      wrapping "initialize auth scope mapper" (mapper_of ctx loader) >>= λ scope_mapper.
      wrapping "initialize auth JWT verifier"
        (new_verifier env.jwt env.now ctx cfg.auth_jwks_url allowed_methods)
      >>= λ verifier. wrapping "initialize auth application service" (
          new_authenticator cfg.auth_issuer cfg.auth_audience (some scope_mapper)
            (some (token_verifier verifier)))

  unfoldable pub new_vault_service : Repository → AuditLogger → Result VaultServiceHandler
  new_vault_service repository audit_log =
      wrapping "initialize vault application service" (
        new_service
          (some (file_repository env.lower_unicode env.files env.yaml repository env.entries))
          (some audit_log) env.clock)
      >>= λ vault.
          wrapping "initialize vault connect service" (
            new_vault_service_handler (some (vault_application env.sha256 env.lower_unicode vault)))

  -- `newVaultServer`
  unfoldable pub new_vault_server : Context → ServeConfig → Result VaultServer
  new_vault_server ctx cfg =
      wrapping "initialize vault repository" (new_repository env.abs env.files cfg.root)
      >>= λ repository. new_audit_logger cfg >>= λ audit_log.
          new_service_authenticator ctx cfg >>= λ authenticator.
          wrapping "initialize auth context interceptor" (
            new_auth_context_interceptor (some (authentication_of authenticator)) (some audit_log)
              env.clock)
          >>= λ auth_interceptor. new_vault_service repository audit_log >>= λ vault_service.
              wrapping "initialize audit context interceptor"
                (new_audit_context_interceptor env.clock env.random cfg.audit_hmac_key)
              >>= λ audit_interceptor. ok (record {
                audit_interceptor = audit_interceptor;
                auth_interceptor = auth_interceptor;
                vault_service = vault_service;
              })

  -- The methods of the service behind its interceptors; `peer` is the address of the client.
  unfoldable pub serve_search :
      VaultServer
      → Header
      → Bytes
      → SearchNotesRequest
      → Context
      → Exec (Response (SearchNotesResponse env.proto))
  serve_search server header peer request =
      rpc env.lower_unicode env.net server.audit_interceptor server.auth_interceptor header peer
        (λ ctx. handle_search_notes env.proto server.vault_service ctx request)

  unfoldable pub serve_read :
      VaultServer
      → Header
      → Bytes
      → Option Bytes
      → Context
      → Exec (Response (NoteMessage env.proto))
  serve_read server header peer ref =
      rpc env.lower_unicode env.net server.audit_interceptor server.auth_interceptor header peer
        (λ ctx. handle_read_note env.lower_unicode env.proto server.vault_service ctx ref)
