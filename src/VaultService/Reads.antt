-- ===== src/VaultService/Reads.antt =====
-- A read of a note from the request to the answer, in cmd/vault-service.
use canterbury.Base.{some, Option, Bytes, ◌≡◌, ap, sym, ◌∙◌, subst, some-inj}
use canterbury.Context.{Context, Principal, with_principal, with_metadata, principal_from_context}
use canterbury.Domain.Vault.Note.{Note, NotePath}
use canterbury.Domain.Vault.NotePath.{new_note_path}
use canterbury.Errors.{ok}
use canterbury.Auth.ScopeMapper.{MappingSubject}
use canterbury.Service.Exec.{World}
use canterbury.Service.Read.Released.{read_note-ok}
use canterbury.VaultFs.Read.{Repository, read_note, new_repository}
use canterbury.VaultFs.Released.{ShareScope, file_service, file_repository}
use canterbury.Bearer.{Header, bearer_token_from_header}
use canterbury.VaultRpc.Message.{NoteMessage}
use canterbury.VaultRpc.Handlers.{handle_read_note}
use canterbury.VaultRpc.AuditContext.{Response, metadata_of}
use canterbury.VaultRpc.AuthContext.{Authentication}
use canterbury.VaultRpc.Chain.{rpc-IsServed}
use canterbury.VaultRpc.Reads.{IsMessageOf, handle_read_note-ok}
use canterbury.VaultRpc.Released.{vault_application}
use canterbury.VaultService.{
  Environment, ServeConfig, VaultServer, authentication_of, new_vault_server, serve_read,
}
use canterbury.VaultService.Built.{new_vault_server-IsServer}
use canterbury.VaultService.Released.{IsGranted, granted}

module _ (env : Environment) (ctx : Context) (cfg : ServeConfig) where
  -- A note of the vault's directory for a path that was asked for, with the answer.
  pub record IsRevealed (subject : MappingSubject) (ref : Option Bytes)
      (message : NoteMessage env.proto) : Type 0 where
    pub value : Bytes
    pub path : NotePath
    pub request : Context
    pub repository : Repository
    pub note : Note
    pub asked : ref ≡ some value
    pub accepted : new_note_path env.lower_unicode value ≡ ok path
    pub rooted : new_repository env.abs env.files cfg.root ≡ ok repository
    pub found : read_note env.files env.yaml repository request path ≡ ok note
    pub shared : ShareScope subject.scopes note.metadata.access.scopes
    pub answers : IsMessageOf env.proto message note

  -- A note that the service answers with was asked for with a bearer token that was verified for the
  -- configured issuer and audience, with the configured key set, and whose issuer and subject the
  -- configured mapping file lists; it is the note of the vault's directory at the path that was asked
  -- for, and declares a scope which the file grants to that subject.
  pub serve_read-IsGranted :
      (server : VaultServer env) (header : Header) (peer : Bytes) (ref : Option Bytes)
      → (request_ctx : Context) (w : World) {res : Response (NoteMessage env.proto)} {w' : World}
      → new_vault_server env ctx cfg ≡ ok server
      → serve_read env server header peer ref request_ctx w ≡ (ok res, w')
      → (token : Bytes) × (subject : MappingSubject) × (bearer_token_from_header header ≡ ok token)
        × IsGranted env ctx cfg token subject
        × IsRevealed subject ref res.msg
  unfolding serve_read authentication_of principal_from_context with_principal vault_application
      file_service file_repository
  serve_read-IsGranted server header peer ref request_ctx w built h =
      let made = new_vault_server-IsServer env ctx cfg built in
      let served =
        rpc-IsServed env.lower_unicode env.net server.audit_interceptor server.auth_interceptor
          header peer (λ c. handle_read_note env.lower_unicode env.proto server.vault_service c ref)
          request_ctx w h in
      let seen =
        with_metadata request_ctx (metadata_of env.lower_unicode header served.id served.c) in
      let (subject, is_granted, same, _) =
        granted env ctx cfg seen served.token {p = served.p} made.authenticates (
          ap (λ (a : Authentication). a.authenticate seen served.token) (sym made.guarded)
          ∙ served.known) in
      let (value, path, given, asked, accepted, gave, is_message) =
        handle_read_note-ok env.lower_unicode env.proto _ (with_principal seen served.p) ref
          served.before
          (ap
              (λ v.
                handle_read_note env.lower_unicode env.proto v (with_principal seen served.p) ref
                  served.before)
              (sym made.serves)
            ∙ served.handled) in
      let (p, note, named, found, scope, released, _) =
        read_note-ok env.lower_unicode
          (file_service env.lower_unicode env.files env.yaml made.repository env.entries
            made.audit_log env.clock)
          (with_principal seen served.p) path served.before gave in
      (
        served.token,
        subject,
        served.bearer,
        is_granted,
        record {
          value = value;
          path = path;
          request = with_principal seen served.p;
          repository = made.repository;
          note = note;
          asked = asked;
          accepted = accepted;
          rooted = made.rooted;
          found = found;
          shared =
              subst (λ scopes. ShareScope scopes note.metadata.access.scopes)
                (ap (λ (q : Principal). q.scopes) (sym (some-inj named)) ∙ sym same) scope;
          answers = (
            is_message.0 ∙ ap (λ (n : Note). n.ref.path) released,
            is_message.1 ∙ ap (λ (n : Note). n.content) released,
          );
        },
      )
