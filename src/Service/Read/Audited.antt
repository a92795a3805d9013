-- ===== src/Service/Read/Audited.antt =====
-- What the audit log holds after a read, and what a read tells when it is denied.
use mathlib.Core.Path.{fun_ext}
use canterbury.Base.{
  suc, true, false, [], ◌∷◌, ◌++◌, none, some, ◌≡◌, ◌≢◌, inl, inr, refl, subst, arith, Bytes,
  Bool-cases, Option-cases,
}
use canterbury.Errors.{Error, Result, Result-cases, ok, err, is, sentinel}
use canterbury.Errors
use canterbury.Context.{Context, Principal, principal_from_context}
use canterbury.Domain.Vault.Access.{allows_any}
use canterbury.Domain.Vault.Note.{Note, NotePath}
use canterbury.Domain.Audit.{
  Event, Outcome, success, failed, outcome_ok, permission_denied, event_type, vault_read_allowed,
  vault_read_denied, vault_read_failed, allow, deny,
}
use canterbury.Time.{Time}
use canterbury.Service.Exec.{Service, World, record_event}
use canterbury.Service.Events.{create_event, outcome}
use canterbury.Service.Sanitize.{sanitize_frontmatter}
use canterbury.Service.Read.{
  read_allowed_event, read_denied_event, read_error_event, record_read_note_allowed,
  record_read_note_denied, record_read_note_error, classify_read_note_error, require_principal,
  release, read_note,
}
use canterbury.Service.Read.Released.{Adds, finished, started, at_release}

-- What a read found, with the event and the result that it calls for: the note is let through, the
-- note is kept back, or the repository gave no note.
pub data Tells (lower_unicode : Bytes → Bytes) (p : Principal)
    : Result Note → Event → Result Note → Type 0 where
  allows :
      {note : Note} {e : Event}
      → allows_any note.metadata.access p.scopes ≡ true
      → event_type e ≡ vault_read_allowed
      → e.policy.decision ≡ allow
      → e.outcome.status ≡ success
      → Tells lower_unicode p
          (ok note)
          e
          (ok (record note { metadata = sanitize_frontmatter lower_unicode note.metadata }))
  denies :
      {note : Note} {e : Event}
      → allows_any note.metadata.access p.scopes ≡ false
      → event_type e ≡ vault_read_denied
      → e.policy.decision ≡ deny
      → e.outcome.status ≡ failed
      → Tells lower_unicode p (ok note) e (err (sentinel Errors.permission_denied))
  fails :
      {x : Error} {e : Event}
      → event_type e ≡ vault_read_failed
      → e.outcome.status ≡ (classify_read_note_error x).status
      → e.outcome.code ≡ (classify_read_note_error x).code
      → Tells lower_unicode p (err x) e (err (Errors.wrap "read note from repository" x))

module _ (lower_unicode : Bytes → Bytes) (s : Service) (ctx : Context) where
  -- The three ends of a read, where the log accepts the event.
  allowed_run :
      (p : Principal) (note : Note) (t : Time) (w : World)
      → let e = read_allowed_event ctx p note t (finished s success outcome_ok t w) in
        s.audit_log ctx e ≡ none
        → allows_any note.metadata.access p.scopes ≡ true
        → release lower_unicode s ctx p note t w ≡ (
          ok (record note { metadata = sanitize_frontmatter lower_unicode note.metadata }),
          record { readings = suc w.readings; log = w.log ++ e ∷ [] },
        )
  unfolding release record_read_note_allowed record_event outcome finished
  allowed_run p note t w accepted allowed = ground arith

  denied_run :
      (p : Principal) (note : Note) (t : Time) (w : World)
      → let e = read_denied_event ctx p note t (finished s failed permission_denied t w) in
        s.audit_log ctx e ≡ none
        → allows_any note.metadata.access p.scopes ≡ false
        → release lower_unicode s ctx p note t w ≡ (
          err (sentinel Errors.permission_denied),
          record { readings = suc w.readings; log = w.log ++ e ∷ [] },
        )
  unfolding release record_read_note_denied record_event outcome finished
  denied_run p note t w accepted denied = ground arith

  error_event : Principal → NotePath → Error → World → Event
  error_event p path x w =
      let c = classify_read_note_error x in
      read_error_event ctx p path c.reason (s.clock w.readings)
        (finished s c.status c.code (s.clock w.readings) (started w))

  failed_run :
      (path : NotePath) (w : World) (p : Principal) (x : Error)
      → s.audit_log ctx (error_event p path x w) ≡ none
      → principal_from_context ctx ≡ some p
      → s.repository.read_note ctx path ≡ err x
      → read_note lower_unicode s ctx path w ≡ (
        err (Errors.wrap "read note from repository" x),
        record { readings = suc (suc w.readings); log = w.log ++ error_event p path x w ∷ [] },
      )
  unfolding read_note require_principal record_read_note_error record_event outcome finished
      error_event
  failed_run path w p x accepted named lost = ground arith

  abbrev pub IsAccount : Principal → Result Note → World → Result Note × World → Type 0
  IsAccount p found w r =
      Adds (λ e. (e.actor.subject_hash ≡ p.subject_hash) × Tells lower_unicode p found e r.0) w r.1

  release-IsAccount :
      (p : Principal) (note : Note) (t : Time) (w : World)
      → ((e : Event) → s.audit_log ctx e ≡ none)
      → IsAccount p (ok note) w (release lower_unicode s ctx p note t w)
  unfolding read_allowed_event read_denied_event create_event event_type is finished
  release-IsAccount p note t w accepts =
      elim (Bool-cases (allows_any note.metadata.access p.scopes)) [
        | inl allowed ↦
            rw (allowed_run p note t w (accepts _) allowed)
              (record { event = _; appended = refl; holds = (refl, allows allowed refl refl refl) })
        | inr denied ↦
            rw (denied_run p note t w (accepts _) denied)
              (record { event = _; appended = refl; holds = (refl, denies denied refl refl refl) })
      ]

  -- Where the log accepts events, a read by a principal adds exactly one, for that principal. It says
  -- that the read was allowed, and a note is returned, where the repository finds a note that
  -- declares a scope of the principal; that it was denied, and the error is that of a denial, where
  -- it finds another note; and that it failed, with the status and the code for the repository's
  -- error, which is returned, where it finds none. The note is returned with its frontmatter sanitized.
  pub read_note-audited :
      (path : NotePath) (w : World) (p : Principal)
      → ((e : Event) → s.audit_log ctx e ≡ none)
      → principal_from_context ctx ≡ some p
      → IsAccount p (s.repository.read_note ctx path) w (read_note lower_unicode s ctx path w)
  unfolding error_event read_error_event create_event event_type finished
  read_note-audited path w p accepts named = elim (Result-cases (s.repository.read_note ctx path)) [
    | inl (note, found) ↦
        let a = release-IsAccount p note (s.clock w.readings) (started w) accepts in
        rw found (
          subst (λ r. IsAccount p (ok note) w r)
            (at_release lower_unicode s ctx path w p note named found refl)
            (record { event = a.event; appended = a.appended; holds = a.holds }))
    | inr (x, lost) ↦ rw (failed_run path w p x (accepts _) named lost) (
        rw lost (record {
          event = error_event p path x w;
          appended = refl;
          holds = (refl, fails refl refl refl);
        }))
  ]

  -- No note, and nothing in the log.
  abbrev IsRefused : World → Result Note × World → Type 0
  IsRefused w r = ((seen : Note) → r.0 ≢ ok seen) × (r.1.log ≡ w.log)

  release-IsRefused :
      (p : Principal) (note : Note) (t : Time) (w : World) (x : Error)
      → ((e : Event) → s.audit_log ctx e ≡ some x)
      → IsRefused w (release lower_unicode s ctx p note t w)
  unfolding release record_read_note_allowed record_read_note_denied record_event outcome finished
  release-IsRefused p note t w x refuses =
      let one = refuses (read_allowed_event ctx p note t (finished s success outcome_ok t w)) in
      let two =
        refuses (read_denied_event ctx p note t (finished s failed permission_denied t w)) in
      ((λ seen. ground (arith, one, two)), ground (arith, one, two))

  read_note-IsRefused :
      (path : NotePath) (w : World) (x : Error)
      → ((e : Event) → s.audit_log ctx e ≡ some x)
      → IsRefused w (read_note lower_unicode s ctx path w)
  unfolding read_note require_principal record_read_note_error record_event outcome finished
      error_event
  read_note-IsRefused path w x refuses = elim (Option-cases (principal_from_context ctx)) [
    | inl anonymous ↦ ((λ seen. ground arith), ground arith)
    | inr (p, named) ↦ elim (Result-cases (s.repository.read_note ctx path)) [
      | inl (note, found) ↦
          subst (IsRefused w) (at_release lower_unicode s ctx path w p note named found refl)
            (release-IsRefused p note (s.clock w.readings) (started w) x refuses)
      | inr (y, lost) ↦
          let one = refuses (error_event p path y w) in
          ((λ seen. ground (arith, one)), ground (arith, one))
    ]
  ]

  -- Where the log refuses every event, nobody reads a note, and the log stays as it is.
  pub read_note-fails_closed :
      (path : NotePath) (w : World) (x : Error) (seen : Note)
      → ((e : Event) → s.audit_log ctx e ≡ some x)
      → ((read_note lower_unicode s ctx path w).0 ≢ ok seen)
        × ((read_note lower_unicode s ctx path w).1.log ≡ w.log)
  read_note-fails_closed path w x seen refuses =
      let refused = read_note-IsRefused path w x refuses in (refused.0 seen, refused.1)

  -- A denied read tells nothing of the note but its path and the scopes that it declares: what is
  -- returned and what is logged are the same for any two notes that agree on these.
  pub denied_reads_agree :
      (p : Principal) (a b : Note) (t : Time) (w : World)
      → allows_any a.metadata.access p.scopes ≡ false
      → a.ref.path ≡ b.ref.path
      → a.metadata.access ≡ b.metadata.access
      → release lower_unicode s ctx p a t w ≡ release lower_unicode s ctx p b t w
  unfolding release record_read_note_denied
  denied_reads_agree p a b t w denied path access =
      let same : (r : Outcome) → read_denied_event ctx p a t r ≡ read_denied_event ctx p b t r =
        λ r. unfold read_denied_event in simp (path, access) in
      let denied' = rw access at denied in rw (denied, denied', fun_ext same)
