-- ===== src/VaultService/Built.antt =====
-- What cmd/vault-service has put together when it starts.
use canterbury.Base.{arith, some, [], Bytes, ◌≡◌, ap, sym, ◌∙◌}
use canterbury.Strings.Trim.{trim_space}
use canterbury.Errors.{ok, wrapping, wrapping-eq-ok, >>=-eq-ok, ok-inj}
use canterbury.Context.{Context}
use canterbury.Auth.ScopeMapper.{ScopeMapper, MappingDocument, add_mappings, new_scope_mapper}
use canterbury.Auth.Authenticator.{Authenticator, new_authenticator}
use canterbury.AuthFs.{Loader, new_loader, load_mapping}
use canterbury.AuthJwt.{Verifier, new_verifier}
use canterbury.Service.Exec.{AuditLogger, new_service}
use canterbury.VaultFs.Read.{Repository, new_repository}
use canterbury.VaultFs.Released.{file_service}
use canterbury.VaultRpc.Released.{vault_application}
use canterbury.VaultRpc.Handlers.{new_vault_service_handler}
use canterbury.VaultRpc.AuthContext.{new_auth_context_interceptor}
use canterbury.VaultRpc.AuditContext.{new_audit_context_interceptor}
use canterbury.VaultService.{
  Environment, ServeConfig, VaultServer, allowed_methods, authentication_of, token_verifier,
  mapper_of, new_service_authenticator, new_vault_service, new_vault_server, new_audit_logger,
}

module _ (env : Environment) (ctx : Context) (cfg : ServeConfig) where
  -- The mapping that the file held, and the verifier for the key set.
  pub record IsAuthenticator (a : Authenticator) : Type 0 where
    pub loader : Loader
    pub document : MappingDocument
    pub verifier : Verifier env.jwt
    pub located : new_loader cfg.auth_mapping_file ≡ ok loader
    pub keyed : new_verifier env.jwt env.now ctx cfg.auth_jwks_url allowed_methods ≡ ok verifier
    pub loaded : load_mapping env.sha256 env.read_file env.toml loader ctx ≡ ok document
    pub mapped : add_mappings [] document.subjects ≡ ok a.scope_mapper.lookup
    pub issuer : a.issuer ≡ trim_space cfg.auth_issuer
    pub audience : a.audience ≡ trim_space cfg.auth_audience
    pub verifies : a.verifier ≡ token_verifier env verifier

  pub record IsServer (server : VaultServer env) : Type 0 where
    pub repository : Repository
    pub audit_log : AuditLogger
    pub authenticator : Authenticator
    pub rooted : new_repository env.abs env.files cfg.root ≡ ok repository
    pub logs : new_audit_logger env cfg ≡ ok audit_log
    pub authenticates : IsAuthenticator authenticator
    pub guarded : server.auth_interceptor.authenticator ≡ authentication_of env authenticator
    pub serves : server.vault_service ≡ (record {
      vault = vault_application env.sha256 env.lower_unicode (
          file_service env.lower_unicode env.files env.yaml repository env.entries audit_log
            env.clock);
    })

  scope_mapper-ok :
      (loader : Loader) {mapper : ScopeMapper}
      → mapper_of env ctx loader ≡ ok mapper
      → (document : MappingDocument) × (load_mapping env.sha256 env.read_file env.toml loader ctx
          ≡ ok document)
        × (add_mappings [] document.subjects ≡ ok mapper.lookup)
  unfolding mapper_of new_scope_mapper
  scope_mapper-ok loader h =
      let (document, e, h1) =
        >>=-eq-ok
          (wrapping "load mapping" (load_mapping env.sha256 env.read_file env.toml loader ctx)) _
          h in
      let (lookup, e1, h2) = >>=-eq-ok (add_mappings [] document.subjects) _ h1 in
      (document, wrapping-eq-ok _ _ e, e1 ∙ ap (λ (m : ScopeMapper). ok m.lookup) (ok-inj h2))

  -- An authenticator that is made keeps its arguments, trimmed.
  new_authenticator-ok :
      (issuer audience : Bytes) (mapper : ScopeMapper) (verifier : Verifier env.jwt)
      {a : Authenticator}
      → new_authenticator issuer audience (some mapper) (some (token_verifier env verifier)) ≡ ok a
      → (a.issuer ≡ trim_space issuer)
        × (a.audience ≡ trim_space audience)
        × (a.scope_mapper ≡ mapper)
        × (a.verifier ≡ token_verifier env verifier)
  unfolding new_authenticator
  new_authenticator-ok issuer audience mapper verifier h = ground arith

  new_service_authenticator-ok :
      {a : Authenticator} → new_service_authenticator env ctx cfg ≡ ok a → IsAuthenticator a
  unfolding new_service_authenticator
  new_service_authenticator-ok h =
      let (loader, e, h1) =
        >>=-eq-ok (wrapping "initialize auth mapping loader" (new_loader cfg.auth_mapping_file)) _
          h in
      let (mapper, e1, h2) =
        >>=-eq-ok (wrapping "initialize auth scope mapper" (mapper_of env ctx loader)) _ h1 in
      let (verifier, e2, h3) =
        >>=-eq-ok
          (wrapping "initialize auth JWT verifier"
            (new_verifier env.jwt env.now ctx cfg.auth_jwks_url allowed_methods))
          _ h2 in
      let (document, loaded, mapped) = scope_mapper-ok loader (wrapping-eq-ok _ _ e1) in
      let (issuer, audience, same, verifies) =
        new_authenticator-ok cfg.auth_issuer cfg.auth_audience mapper verifier
          (wrapping-eq-ok _ _ h3) in
      record {
        loader = loader;
        document = document;
        verifier = verifier;
        located = wrapping-eq-ok _ _ e;
        keyed = wrapping-eq-ok _ _ e2;
        loaded = loaded;
        mapped = mapped ∙ ap (λ (m : ScopeMapper). ok m.lookup) (sym same);
        issuer = issuer;
        audience = audience;
        verifies = verifies;
      }

  pub new_vault_server-IsServer :
      {server : VaultServer env} → new_vault_server env ctx cfg ≡ ok server → IsServer server
  unfolding new_vault_server new_auth_context_interceptor new_vault_service new_service
      new_vault_service_handler file_service
  new_vault_server-IsServer {server} h =
      let (repository, e, h1) =
        >>=-eq-ok
          (wrapping "initialize vault repository" (new_repository env.abs env.files cfg.root)) _
          h in
      let (audit_log, e1, h2) = >>=-eq-ok (new_audit_logger env cfg) _ h1 in
      let (authenticator, e2, h3) = >>=-eq-ok (new_service_authenticator env ctx cfg) _ h2 in
      let (audit_interceptor, _, h4) =
        >>=-eq-ok
          (wrapping "initialize audit context interceptor"
            (new_audit_context_interceptor env.clock env.random cfg.audit_hmac_key))
          _ h3 in
      let same = ok-inj h4 in
      record {
        repository = repository;
        audit_log = audit_log;
        authenticator = authenticator;
        rooted = wrapping-eq-ok _ _ e;
        logs = e1;
        authenticates = new_service_authenticator-ok e2;
        guarded = sym (ap (λ (s : VaultServer env). s.auth_interceptor.authenticator) same);
        serves = sym (ap (λ (s : VaultServer env). s.vault_service) same);
      }
