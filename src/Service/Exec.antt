-- ===== src/Service/Exec.antt =====
-- The service of internal/app/vault/service.go with what it depends on, and its methods as
-- actions: they read the clock and write to the audit log, and may return an error.
use canterbury.Base.{ℕ, suc, Option, none, some, String, List, [], ◌∷◌, ◌++◌}
use canterbury.Errors.{Error, Result, ok, err, message, wrap, wrapping}
use canterbury.Time.{Time}
use canterbury.Context.{Context}
use canterbury.Domain.Vault.Note.{Note, NotePath}
use canterbury.Domain.Vault.Search.{SearchNotesQuery, SearchNotesPage}
use canterbury.Domain.Audit.{Event}

-- internal/domain/vault/repository.go
pub record Repository : Type 0 where
  pub read_note : Context → NotePath → Result Note
  pub search_notes : Context → SearchNotesQuery → Result SearchNotesPage

-- `AuditLogger` of internal/app/vault/audit.go: `none` is the nil error, after which the event is
-- in the log.
abbrev pub AuditLogger : Type 0
AuditLogger = Context → Event → Option Error

-- The clock gives an instant for each of its readings.
pub record Service : Type 0 where
  pub repository : Repository
  pub audit_log : AuditLogger
  pub clock : ℕ → Time

-- `none` is a nil argument. The system clock is the environment's.
unfoldable pub new_service : Option Repository → Option AuditLogger → (ℕ → Time) → Result Service
new_service none audit_log clock = err (message "repository must not be nil")
new_service (some repository) none clock = err (message "audit log must not be nil")
new_service (some repository) (some audit_log) clock =
    ok (record { repository = repository; audit_log = audit_log; clock = clock })

-- How often the clock was read, and the events in the log, the oldest first.
pub record World : Type 0 where
  pub readings : ℕ
  pub log : List Event

abbrev pub Exec : Type 0 → Type 0
Exec A = World → Result A × World

abbrev pub continue : {A B : Type 0} → Result A → (A → Exec B) → World → Result B × World
continue (ok a) f w = f a w
continue (err e) f w = (err e, w)

infixl 5 ◌>>=◌ ◌>>◌
abbrev pub ◌>>=◌ : {A B : Type 0} → Exec A → (A → Exec B) → Exec B
◌>>=◌ m f w = let (r, w') = m w in continue r f w'

abbrev pub ◌>>◌ : {B : Type 0} → Exec Unit → Exec B → Exec B
m >> n = m >>= λ _. n

abbrev pub pure : {A : Type 0} → A → Exec A
pure a w = (ok a, w)

abbrev pub raise : {A : Type 0} → Error → Exec A
raise e w = (err e, w)

-- `fmt.Errorf("text: %w", err)` where the action returns an error
abbrev pub describe : {A : Type 0} → String → Exec A → Exec A
describe text m w = let (r, w') = m w in (wrapping text r, w')

-- `s.clock.Now()`
abbrev pub now : Service → Exec Time
now s w = (ok (s.clock w.readings), record w { readings = suc w.readings })

-- `s.recordEvent(ctx, event)` of internal/app/vault/audit.go
unfoldable pub record_event : Service → Context → Event → Exec Unit
record_event s ctx event w = elim (s.audit_log ctx event) [
  | some e ↦ (err (wrap "record audit log event" e), w)
  | none ↦ (ok tt, record w { log = w.log ++ event ∷ [] })
]
