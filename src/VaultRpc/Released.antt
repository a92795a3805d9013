-- ===== src/VaultRpc/Released.antt =====
-- The handler of a search over the vault service and its file repository:
-- internal/interfaces/vaultrpc, internal/app/vault and internal/adapters/vaultfs, composed as
-- cmd/vault-service does.
use canterbury.Base.{ℕ, some, Bytes, codes, true, ◌≡◌, All}
use canterbury.Strings.Affix.{has_prefix}
use canterbury.Errors.{ok}
use canterbury.Time.{Time}
use canterbury.Context.{Context, Principal, principal_from_context}
use canterbury.Domain.Vault.Access.{new_scope}
use canterbury.Domain.Vault.Search.{SearchNotesQuery, SearchNotesPage}
use canterbury.Service.Exec.{Service, World, AuditLogger}
use canterbury.Service.Read.{read_note}
use canterbury.Service.Search.{search_notes}
use canterbury.VaultFs.Released.{file_service, IsShared, search_notes-IsShared}
use canterbury.VaultFs.Paths.{Files}
use canterbury.VaultFs.Frontmatter.{Yaml}
use canterbury.VaultFs.Read.{Repository}
use canterbury.VaultFs.Search.{Entries}
use canterbury.VaultRpc.Request.{SearchNotesRequest}
use canterbury.VaultRpc.Request.Laws.{IsRequested, proto_to_search_notes_query-IsRequested}
use canterbury.VaultRpc.Message.{Protocol}
use canterbury.VaultRpc.Handlers.{VaultApplication, SearchNotesResponse, handle_search_notes}
use canterbury.VaultRpc.Laws.{IsAnswerOf, handle_search_notes-ok}

module _ (sha256 lower_unicode : Bytes → Bytes) where
  -- The interface of the handlers, filled by the service.
  unfoldable pub vault_application : Service → VaultApplication
  vault_application s = record {
    read_note = λ ctx path. read_note lower_unicode s ctx path;
    search_notes = λ ctx query. search_notes sha256 lower_unicode s ctx query;
  }

module _ (sha256 lower_unicode : Bytes → Bytes) (files : Files) (yaml : Yaml) (r : Repository)
    (entries : Entries) (audit_log : AuditLogger) (clock : ℕ → Time) (proto : Protocol)
    (ctx : Context) where
  -- A search request that is answered was accepted as a query that asks for no scopes, and the paths
  -- and the cursor in the answer are, in order, those of the page that the service returned for this
  -- query, every result of which has the path of a note that declares a scope of the principal. The
  -- root of the vault is absolute, and the principal's scopes are normalized.
  pub handle_search_notes-IsShared :
      (request : SearchNotesRequest) (p : Principal) (w : World)
      {response : SearchNotesResponse proto} {w' : World}
      → has_prefix r.root (codes "/") ≡ true
      → principal_from_context ctx ≡ some p
      → All (λ scope. new_scope scope ≡ ok scope) p.scopes
      → handle_search_notes proto
          (record {
            vault =
                vault_application sha256 lower_unicode
                  (file_service lower_unicode files yaml r entries audit_log clock);
          })
          ctx
          request
          w
        ≡ (ok response, w')
      → (query : SearchNotesQuery) × (page : SearchNotesPage) × IsRequested request query
        × (search_notes sha256 lower_unicode
              (file_service lower_unicode files yaml r entries audit_log clock)
              ctx
              query
              w
            ≡ (ok page, w'))
        × All (IsShared files yaml r ctx p.scopes) page.results
        × IsAnswerOf proto response page
  unfolding vault_application
  handle_search_notes-IsShared request p w absolute named normal answered =
      let (query, page, accepted, found, is_answer) =
        handle_search_notes-ok lower_unicode proto
          (record {
            vault =
                vault_application sha256 lower_unicode
                  (file_service lower_unicode files yaml r entries audit_log clock);
          })
          ctx request w answered in
      (
        query,
        page,
        proto_to_search_notes_query-IsRequested request accepted,
        found,
        search_notes-IsShared sha256 lower_unicode files yaml r entries audit_log clock ctx query p
            w absolute named normal found,
        is_answer,
      )
