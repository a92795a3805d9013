-- ===== src/AuditLog/Laws.antt =====
-- What is recorded, and when nothing is.
use canterbury.Base.{
  ◌≤◌, ◌==◌, Option, none, some, ◌≡◌, ◌≢◌, refl, sym, ap, subst, ◌∙◌, length, Bool-cases, inl, inr,
  if◌then◌else◌,
}
use canterbury.Strings.Trim.{is_empty}
use canterbury.Errors.{Error, Result, Result-cases, ok, ok-inj, wrapping, wrapping-eq-ok, >>=-eq-ok}
use canterbury.Time.{Time, is_zero, utc}
use canterbury.Context.{Context}
use canterbury.Domain.Audit.{Event}
use canterbury.Domain.Audit.Identifier.{max_id_length, EventId, new_event_id}
use canterbury.Domain.Audit.Identifier.Laws.{new_event_id-bounds}
use canterbury.AuditLog.{
  IdGenerator, ulid_generator, AuditService, stamp, identify, recorded, record_event,
}
use canterbury.AuditLog.Ulid.{Entropy, new_ulid}

-- An event as it is recorded for one that was handed in.
pub record IsComplete (s : AuditService) (event recorded_as : Event) : Type 0 where
  pub id : (1 ≤ length recorded_as.id) × (length recorded_as.id ≤ max_id_length)
  pub time : recorded_as.occurred_at ≡ (if event.occurred_at == 0 then s.now else event.occurred_at)
  pub kept :
      recorded_as ≡ record event { id = recorded_as.id; occurred_at = recorded_as.occurred_at }

module _ (random : Result Entropy) (s : AuditService)
    (generates : s.id_generator ≡ ulid_generator random) where
  generated :
      (t : Time) {id : EventId}
      → s.id_generator t ≡ ok id
      → (1 ≤ length id) × (length id ≤ max_id_length)
  unfolding ulid_generator
  generated t {id} h =
      let h' : ulid_generator random t ≡ ok id =
        sym (ap (λ (g : IdGenerator). g t) generates) ∙ h in
      let (ulid, _, made) = >>=-eq-ok (wrapping "make ulid for event" (new_ulid random t)) _ h' in
      let (low, high, _) =
        new_event_id-bounds ulid (wrapping-eq-ok "make event ID from ulid" _ made) in
      (low, high)

  identified :
      (event : Event) {as_ : Event}
      → identify s event ≡ ok as_
      → ((1 ≤ length as_.id) × (length as_.id ≤ max_id_length))
        × (as_ ≡ record event { id = as_.id })
  unfolding identify
  identified event {as_} h = elim (Bool-cases (is_empty event.id)) [
    | inl missing ↦
        let (id, made, e) =
          >>=-eq-ok (wrapping "set event id" (s.id_generator event.occurred_at)) _
            (rw missing at h) in
        let bounds = generated event.occurred_at (wrapping-eq-ok "set event id" _ made) in
        subst
          (λ (k : Event).
            ((1 ≤ length k.id) × (length k.id ≤ max_id_length)) × (k ≡ record event { id = k.id }))
          (ok-inj e) (bounds, refl)
    | inr given ↦
        let (id, made, e) =
          >>=-eq-ok (wrapping "validate event id" (new_event_id event.id)) _ (rw given at h) in
        let (low, high, _) =
          new_event_id-bounds event.id (wrapping-eq-ok "validate event id" _ made) in
        subst
          (λ (k : Event).
            ((1 ≤ length k.id) × (length k.id ≤ max_id_length)) × (k ≡ record event { id = k.id }))
          (ok-inj e) ((low, high), refl)
  ]

  -- An event is recorded without an error only as the recorder accepts it, with an identifier of
  -- one to 128 bytes, with the time of the clock where it had none, and otherwise as it was.
  pub record_event-IsComplete :
      (ctx : Context) (event : Event)
      → record_event s ctx event ≡ none
      → (recorded_as : Event) × (s.recorder ctx recorded_as ≡ none) × IsComplete s event recorded_as
  unfolding record_event stamp is_zero utc
  record_event-IsComplete ctx event h = elim (Result-cases (identify s (stamp s event))) [
    | inr (e, bad) ↦ absurd (some≢none (rw bad at h))
    | inl (as_, good) ↦
        let (bounds, kept) = identified (stamp s event) good in
        (
          as_,
          accepted (s.recorder ctx as_) (rw good at h),
          record {
            id = bounds;
            time = ap (λ (k : Event). k.occurred_at) kept;
            kept =
                kept
                ∙ ap (λ t. record event { id = as_.id; occurred_at = t })
                    (sym (ap (λ (k : Event). k.occurred_at) kept));
          },
        )
  ]
    where
      some≢none : {e : Error} → some e ≢ none
      some≢none k = cc

      accepted : (o : Option Error) → recorded o ≡ none → o ≡ none
      accepted none k = refl
      accepted (some e) k = cc
