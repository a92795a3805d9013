-- ===== src/Service/Read/Released.antt =====
-- What a caller who receives a note may rely on.
use canterbury.Base.{
  suc, Memᴰ, true, [], ◌∷◌, ◌++◌, some, ◌≡◌, inl, inr, refl, arith, Bytes, Option-cases,
}
use canterbury.Errors.{Result, Result-cases, ok}
use canterbury.Context.{Context, Principal, principal_from_context}
use canterbury.Domain.Vault.Access.{Scope, allows_any, matched_scopes}
use canterbury.Domain.Vault.Access.Laws.{allows_any_iff}
use canterbury.Domain.Vault.Note.{Note, NotePath}
use canterbury.Domain.Audit.{
  Event, Outcome, OutcomeStatus, OutcomeCode, success, outcome_ok, event_type, vault_read_allowed,
  allow,
}
use canterbury.Time.{Time, sub}
use canterbury.Service.Exec.{Service, World, record_event}
use canterbury.Service.Events.{create_event, outcome}
use canterbury.Service.Sanitize.{sanitize_frontmatter}
use canterbury.Service.Read.{
  read_allowed_event, record_read_note_allowed, record_read_note_error, require_principal, release,
  read_note,
}

-- What the log holds after an action: what it held before, and one more event that satisfies `P`.
pub record Adds (P : Event → Type 0) (w w' : World) : Type 0 where
  pub event : Event
  pub appended : w'.log ≡ w.log ++ event ∷ []
  pub holds : P event

-- The outcome that is recorded, with the time since the start.
unfoldable pub finished : Service → OutcomeStatus → OutcomeCode → Time → World → Outcome
finished s status code t w = record {
  status = status;
  code = code;
  duration = sub (s.clock w.readings) t;
}

-- The world after a reading of the clock.
abbrev pub started : World → World
started w = record w { readings = suc w.readings }

module _ (lower_unicode : Bytes → Bytes) (s : Service) (ctx : Context) where
  abbrev pub IsReadAllowed : Principal → Note → Event → Type 0
  IsReadAllowed p note e =
      (event_type e ≡ vault_read_allowed)
      × (e.policy.decision ≡ allow)
      × (e.policy.matched_scopes ≡ matched_scopes note.metadata.access p.scopes)
      × (e.actor.subject_hash ≡ p.subject_hash)

  release-ok :
      (p : Principal) (note : Note) (t : Time) (w : World) {seen : Note} {w' : World}
      → release lower_unicode s ctx p note t w ≡ (ok seen, w')
      → (allows_any note.metadata.access p.scopes ≡ true)
        × (seen ≡ record note { metadata = sanitize_frontmatter lower_unicode note.metadata })
        × Adds (IsReadAllowed p note) w w'
  unfolding release record_read_note_allowed record_event outcome finished read_allowed_event
      create_event event_type
  release-ok p note t w h = (
    ground arith,
    ground arith,
    record {
      event = read_allowed_event ctx p note t (finished s success outcome_ok t w);
      appended = ground arith;
      holds = (refl, refl, refl, refl);
    },
  )

  pub at_release :
      (path : NotePath) (w : World) (p : Principal) (note : Note) {r : Result Note × World}
      → principal_from_context ctx ≡ some p
      → s.repository.read_note ctx path ≡ ok note
      → read_note lower_unicode s ctx path w ≡ r
      → release lower_unicode s ctx p note (s.clock w.readings) (started w) ≡ r
  unfolding read_note require_principal
  at_release path w p note named found h = ground arith

  -- One of the principal's scopes is declared by the note.
  abbrev pub SharesScope : Principal → Note → Type 0
  SharesScope p note =
      (scope : Scope) × Memᴰ scope p.scopes × Memᴰ scope note.metadata.access.scopes

  abbrev pub IsReleased : NotePath → World → Note → World → Type 0
  IsReleased path w seen w' =
      (p : Principal) × (note : Note) × (principal_from_context ctx ≡ some p)
      × (s.repository.read_note ctx path ≡ ok note)
      × SharesScope p note
      × (seen ≡ record note { metadata = sanitize_frontmatter lower_unicode note.metadata })
      × Adds (IsReadAllowed p note) w w'

  -- A note that a caller receives was allowed and was audited as such: the context names a
  -- principal one of whose scopes the note declares, the log holds one more event, which says that
  -- this principal was allowed to read and by which scopes, and the note is that of the repository
  -- with its frontmatter sanitized.
  pub read_note-ok :
      (path : NotePath) (w : World) {seen : Note} {w' : World}
      → read_note lower_unicode s ctx path w ≡ (ok seen, w')
      → IsReleased path w seen w'
  unfolding read_note require_principal record_read_note_error record_event outcome
  read_note-ok path w h = elim (Option-cases (principal_from_context ctx)) [
    | inl anonymous ↦ absurd (ground arith)
    | inr (p, named) ↦ elim (Result-cases (s.repository.read_note ctx path)) [
      | inr (e, lost) ↦ absurd (ground arith)
      | inl (note, found) ↦
          let (allowed, same, adds) =
            release-ok p note (s.clock w.readings) (started w)
              (at_release path w p note named found h) in
          (
            p,
            note,
            named,
            found,
            (allows_any_iff _ _).0 allowed,
            same,
            record { event = adds.event; appended = adds.appended; holds = adds.holds },
          )
    ]
  ]
