-- ===== src/Service/Search/Released.antt =====
-- What a caller who receives a page may rely on.
use mathlib.Core.List.{cons-ne-nil}
use canterbury.Base.{
  [], ◌∷◌, some, ◌≡◌, ◌≢◌, inl, inr, refl, arith, Bytes, Option-cases, List-cases, sym, ◌∙◌, List,
}
use canterbury.Errors.{Result, Result-cases, ok}
use canterbury.Context.{Context, Principal, principal_from_context}
use canterbury.Domain.Vault.Access.{Scope}
use canterbury.Domain.Vault.Search.{SearchNotesQuery, SearchNotesPage}
use canterbury.Domain.Audit.{Event, event_type, vault_search_completed, success, outcome_ok, allow}
use canterbury.Time.{Time}
use canterbury.Service.Exec.{Service, World, record_event}
use canterbury.Service.Events.{create_event, outcome}
use canterbury.Service.Read.{require_principal}
use canterbury.Service.Read.Released.{Adds, finished, started}
use canterbury.Service.Search.Details.{matched_search_result_scopes}
use canterbury.Service.Search.{
  search_completed_event, record_search_notes_completed, record_search_notes_error, fail_search,
  sanitize_page, restrict, search_as, search_notes,
}

module _ (sha256 lower_unicode : Bytes → Bytes) (s : Service) (ctx : Context) where
  abbrev pub IsSearchCompleted : Principal → SearchNotesPage → Event → Type 0
  IsSearchCompleted p page e =
      (event_type e ≡ vault_search_completed)
      × (e.policy.decision ≡ allow)
      × (e.policy.matched_scopes ≡ matched_search_result_scopes page p.scopes)
      × (e.actor.subject_hash ≡ p.subject_hash)

  search_as-ok :
      (p : Principal) (query : SearchNotesQuery) (t : Time) (w : World) {seen : SearchNotesPage}
      {w' : World}
      → search_as sha256 lower_unicode s ctx p query t w ≡ (ok seen, w')
      → (page : SearchNotesPage) × (s.repository.search_notes ctx (restrict p query) ≡ ok page)
        × (seen ≡ sanitize_page lower_unicode page)
        × Adds (IsSearchCompleted p page) w w'
  unfolding search_as fail_search record_search_notes_error record_search_notes_completed
      record_event outcome finished search_completed_event create_event event_type
  search_as-ok p query t w h =
      elim (Result-cases (s.repository.search_notes ctx (restrict p query))) [
        | inr (e, lost) ↦ absurd (ground arith)
        | inl (page, found) ↦ (
          page,
          found,
          ground arith,
          record {
            event =
                search_completed_event sha256 ctx p (restrict p query) page t
                  (finished s success outcome_ok t w);
            appended = ground arith;
            holds = (refl, refl, refl, refl);
          },
        )
      ]

  at_search :
      (query : SearchNotesQuery) (w : World) (p : Principal) {scope : Scope} {scopes : List Scope}
      {r : Result SearchNotesPage × World}
      → principal_from_context ctx ≡ some p
      → p.scopes ≡ scope ∷ scopes
      → search_notes sha256 lower_unicode s ctx query w ≡ r
      → search_as sha256 lower_unicode s ctx p query (s.clock w.readings) (started w) ≡ r
  unfolding search_notes require_principal
  at_search query w p named granted h = ground arith

  abbrev pub IsSearchReleased : SearchNotesQuery → World → SearchNotesPage → World → Type 0
  IsSearchReleased query w seen w' =
      (p : Principal) × (page : SearchNotesPage) × (principal_from_context ctx ≡ some p)
      × (p.scopes ≢ [])
      × (s.repository.search_notes ctx
            (record query { access = record { scopes_all = []; scopes_any = p.scopes } })
          ≡ ok page)
      × (seen ≡ sanitize_page lower_unicode page)
      × Adds (IsSearchCompleted p page) w w'

  -- A page that a caller receives is what the repository found for the query under the principal's
  -- own scopes, sanitized: the context names a principal, which has a scope, the access filter of
  -- the query is replaced by its scopes, and the log holds one more event, which says that this
  -- principal was allowed to search and which of its scopes the results declare.
  pub search_notes-ok :
      (query : SearchNotesQuery) (w : World) {seen : SearchNotesPage} {w' : World}
      → search_notes sha256 lower_unicode s ctx query w ≡ (ok seen, w')
      → IsSearchReleased query w seen w'
  unfolding search_notes require_principal fail_search record_search_notes_error record_event
      outcome restrict
  search_notes-ok query w h = elim (Option-cases (principal_from_context ctx)) [
    | inl anonymous ↦ absurd (ground arith)
    | inr (p, named) ↦ elim (List-cases p.scopes) [
      | inl none_granted ↦ absurd (ground arith)
      | inr (scope, scopes, granted) ↦
          let (page, found, same, adds) =
            search_as-ok p query (s.clock w.readings) (started w)
              (at_search query w p named granted h) in
          (
            p,
            page,
            named,
            (λ e. cons-ne-nil scope scopes (sym granted ∙ e)),
            found,
            same,
            record { event = adds.event; appended = adds.appended; holds = adds.holds },
          )
    ]
  ]
