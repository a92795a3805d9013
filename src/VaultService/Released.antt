-- ===== src/VaultService/Released.antt =====
-- A search from the request to the answer: cmd/vault-service with all that it puts together.
use canterbury.Base.{true, some, Bytes, codes, ◌≡◌, refl, ap, sym, ◌∙◌, subst, All, All-Memᴰ, Memᴰ}
use canterbury.Strings.Trim.{trim_space}
use canterbury.Strings.Affix.{has_prefix}
use canterbury.Errors.{ok}
use canterbury.Context.{
  Metadata, Context, Principal, with_principal, with_metadata, principal_from_context,
}
use canterbury.Domain.Vault.Access.{new_scope}
use canterbury.Domain.Vault.Search.{SearchNotesQuery, SearchNotesPage}
use canterbury.Auth.ScopeMapper.{MappingSubject, MappingDocument, SubjectKey}
use canterbury.Auth.ScopeMapper.Lookup.{find_iff}
use canterbury.Auth.Authenticator.{Authenticator, TokenClaims, authenticate}
use canterbury.Auth.Authenticator.Laws.{authenticate_iff}
use canterbury.AuthFs.{Loader, new_loader, load_mapping}
use canterbury.AuthFs.Laws.{load_mapping_iff, AreSubjects-normal}
use canterbury.AuthJwt.{Verifier, new_verifier, verify_token}
use canterbury.Service.Exec.{World, AuditLogger}
use canterbury.Service.Search.{search_notes}
use canterbury.VaultFs.Read.{Repository, new_repository}
use canterbury.VaultFs.Released.{IsShared, file_service}
use canterbury.Bearer.{Header, bearer_token_from_header}
use canterbury.VaultRpc.Request.{SearchNotesRequest}
use canterbury.VaultRpc.Request.Laws.{IsRequested}
use canterbury.VaultRpc.Handlers.{SearchNotesResponse, handle_search_notes}
use canterbury.VaultRpc.AuditContext.{Response, metadata_of}
use canterbury.VaultRpc.AuthContext.{Authentication}
use canterbury.VaultRpc.Laws.{IsAnswerOf}
use canterbury.VaultRpc.Chain.{rpc-IsServed}
use canterbury.VaultRpc.Released.{handle_search_notes-IsShared}
use canterbury.VaultService.{
  Environment, ServeConfig, VaultServer, authentication_of, token_verifier, new_vault_server,
  serve_search, new_audit_logger, allowed_methods,
}
use canterbury.VaultService.Built.{IsAuthenticator, new_vault_server-IsServer}

-- The root of a vault is absolute, as `filepath.EvalSymlinks` keeps the paths that `filepath.Abs`
-- makes.
abbrev pub MakesAbsolute : Environment → Type 0
MakesAbsolute env =
    (root : Bytes) (repository : Repository)
    → new_repository env.abs env.files root ≡ ok repository
    → has_prefix repository.root (codes "/") ≡ true

module _ (env : Environment) (ctx : Context) (cfg : ServeConfig) where
  -- A subject of the configured mapping file whom a token names that is verified with the configured
  -- key set and the allowed methods.
  pub record IsGranted (token : Bytes) (subject : MappingSubject) : Type 0 where
    pub loader : Loader
    pub document : MappingDocument
    pub verifier : Verifier env.jwt
    pub request : Context
    pub claims : TokenClaims
    pub located : new_loader cfg.auth_mapping_file ≡ ok loader
    pub keyed : new_verifier env.jwt env.now ctx cfg.auth_jwks_url allowed_methods ≡ ok verifier
    pub loaded : load_mapping env.sha256 env.read_file env.toml loader ctx ≡ ok document
    pub listed : Memᴰ subject document.subjects
    pub verified :
        verify_token env.jwt verifier request token
          (record { issuer = trim_space cfg.auth_issuer; audience = trim_space cfg.auth_audience })
        ≡ ok claims
    pub issuer : trim_space subject.issuer ≡ trim_space claims.issuer
    pub named : trim_space subject.subject ≡ trim_space claims.subject

  pub granted :
      {a : Authenticator} (request : Context) (token : Bytes) {p : Principal}
      → IsAuthenticator env ctx cfg a
      → authenticate env.sha256 a request token ≡ ok p
      → (subject : MappingSubject) × IsGranted token subject
        × (subject.scopes ≡ p.scopes)
        × All (λ scope. new_scope scope ≡ ok scope) p.scopes
  unfolding token_verifier
  granted {a} request token {p} made h =
      let (claims, live, verified, resolved) =
        (authenticate_iff env.sha256 a request token p).0 h in
      let key : SubjectKey = record { issuer = p.issuer; subject = p.subject } in
      let (subject, listed, k, s) =
        (find_iff made.document.subjects key p.scopes made.mapped).0 resolved.mapped in
      let (bytes, file, _, _, _, _, entries) =
        (load_mapping_iff env.sha256 env.read_file env.toml made.loader ctx made.document).0
          made.loaded in
      let normal =
        All-Memᴰ (λ (m : MappingSubject). All (λ scope. new_scope scope ≡ ok scope) m.scopes)
          made.document.subjects (AreSubjects-normal file.subjects made.document.subjects entries)
          listed in
      (
        subject,
        record {
          loader = made.loader;
          document = made.document;
          verifier = made.verifier;
          request = request;
          claims = claims;
          located = made.located;
          keyed = made.keyed;
          loaded = made.loaded;
          listed = listed;
          verified =
              (λ i.
                sym made.verifies i request token
                  (record { issuer = sym made.issuer i; audience = sym made.audience i }))
              ∙ verified;
          issuer = ap (λ (x : SubjectKey). x.issuer) k ∙ resolved.issuer;
          named = ap (λ (x : SubjectKey). x.subject) k ∙ resolved.subject;
        },
        s,
        subst (All (λ scope. new_scope scope ≡ ok scope)) s normal,
      )

  -- What a search did that was answered: it ran over the vault's directory for a principal with the
  -- scopes of the subject, the notes at the paths of its results declare one of these, and the answer
  -- has these paths. The context is that of the request, with metadata and the principal.
  pub record IsSearched (request_ctx : Context) (subject : MappingSubject)
      (query : SearchNotesQuery) (message : SearchNotesResponse env.proto) (w' : World)
      : Type 0 where
    pub repository : Repository
    pub audit_log : AuditLogger
    pub request : Context
    pub metadata : Metadata
    pub p : Principal
    pub page : SearchNotesPage
    pub before : World
    pub rooted : new_repository env.abs env.files cfg.root ≡ ok repository
    pub logs : new_audit_logger env cfg ≡ ok audit_log
    pub composed : request ≡ with_principal (with_metadata request_ctx metadata) p
    pub named : principal_from_context request ≡ some p
    pub scopes : subject.scopes ≡ p.scopes
    pub found :
        search_notes env.sha256 env.lower_unicode
          (file_service env.lower_unicode env.files env.yaml repository env.entries audit_log
            env.clock)
          request
          query
          before
        ≡ (ok page, w')
    pub shared : All (IsShared env.files env.yaml repository request subject.scopes) page.results
    pub answers : IsAnswerOf env.proto message page

  -- A search that the service answers carries a bearer token that was verified for the configured
  -- issuer and audience, with the configured key set, and whose issuer and subject the configured
  -- mapping file lists; the request asks for a query without scopes. The answer has the paths and the
  -- cursor of the page that the search of this query over the vault's directory gave for a principal
  -- with the scopes that the file grants to that subject, and the note of the directory at each of
  -- these paths declares one of these scopes. The roots of vaults are absolute.
  pub serve_search-IsGranted :
      (server : VaultServer env) (header : Header) (peer : Bytes) (request : SearchNotesRequest)
      → (request_ctx : Context) (w : World) {res : Response (SearchNotesResponse env.proto)}
        {w' : World}
      → MakesAbsolute env
      → new_vault_server env ctx cfg ≡ ok server
      → serve_search env server header peer request request_ctx w ≡ (ok res, w')
      → (token : Bytes) × (subject : MappingSubject) × (query : SearchNotesQuery)
        × (bearer_token_from_header header ≡ ok token)
        × IsGranted token subject
        × IsRequested request query
        × IsSearched request_ctx subject query res.msg w'
  unfolding serve_search authentication_of principal_from_context with_principal
  serve_search-IsGranted server header peer request request_ctx w absolute built h =
      let made = new_vault_server-IsServer env ctx cfg built in
      let served =
        rpc-IsServed env.lower_unicode env.net server.audit_interceptor server.auth_interceptor
          header peer (λ c. handle_search_notes env.proto server.vault_service c request)
          request_ctx w h in
      let seen =
        with_metadata request_ctx (metadata_of env.lower_unicode header served.id served.c) in
      let (subject, is_granted, same, normal) =
        granted seen served.token {p = served.p} made.authenticates (
          ap (λ (a : Authentication). a.authenticate seen served.token) (sym made.guarded)
          ∙ served.known) in
      let (query, page, requested, found, shared, answer) =
        handle_search_notes-IsShared env.sha256 env.lower_unicode env.files env.yaml made.repository
          env.entries made.audit_log env.clock env.proto (with_principal seen served.p) request
          served.p served.before (absolute cfg.root made.repository made.rooted) refl normal
          (ap
              (λ v.
                handle_search_notes env.proto v (with_principal seen served.p) request
                  served.before)
              (sym made.serves)
            ∙ served.handled) in
      (
        served.token,
        subject,
        query,
        served.bearer,
        is_granted,
        requested,
        record {
          repository = made.repository;
          audit_log = made.audit_log;
          request = with_principal seen served.p;
          metadata = metadata_of env.lower_unicode header served.id served.c;
          p = served.p;
          page = page;
          before = served.before;
          rooted = made.rooted;
          logs = made.logs;
          composed = refl;
          named = refl;
          scopes = same;
          found = found;
          shared =
              subst
                (λ scopes.
                  All
                    (IsShared env.files env.yaml made.repository (with_principal seen served.p)
                      scopes)
                    page.results)
                (sym same) shared;
          answers = answer;
        },
      )
