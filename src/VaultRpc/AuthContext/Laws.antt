-- ===== src/VaultRpc/AuthContext/Laws.antt =====
-- What the authentication of internal/interfaces/vaultrpc/auth_context.go lets through.
use canterbury.Base.{
  suc, some, none, true, false, [], ◌∷◌, ◌++◌, ◌≡◌, refl, ◌⊎◌, inl, inr, Bytes, Bool-cases,
  Option-cases, arith,
}
use canterbury.Errors.{Error, Result, ok, err, Result-cases, is, canceled, deadline_exceeded}
use canterbury.Time.{Time}
use canterbury.Context.{Context, Principal, with_principal}
use canterbury.Domain.Audit.{Event, event_type, auth_failed, deny, authentication_failed}
use canterbury.Service.Exec.{World, Exec}
use canterbury.Bearer.{Header, bearer_token_from_header}
use canterbury.VaultRpc.Laws.{IsOpaque, if-IsOpaque, plain, classify_system_error-IsOpaque}
use canterbury.VaultRpc.AuthContext.{
  AuthContextInterceptor, handle_auth_interceptor_error, handle_auth_audit_error,
  auth_failure_reason, should_record_auth_failed, auth_failed_event, record_auth_failed,
  auth_failure, reject, wrap_unary,
}

handle_auth_interceptor_error-IsOpaque : (e : Error) → IsOpaque (handle_auth_interceptor_error e)
unfolding handle_auth_interceptor_error
handle_auth_interceptor_error-IsOpaque e =
    if-IsOpaque _ (plain _ _) (if-IsOpaque _ (classify_system_error-IsOpaque e) (plain _ _))

abbrev pub IsLate : Error → Type 0
IsLate e = (is e canceled ≡ true) ⊎ (is e deadline_exceeded ≡ true)

recorded-IsLate : (e : Error) → should_record_auth_failed e ≡ true → ¬ IsLate e
unfolding should_record_auth_failed
recorded-IsLate e h late = ground arith

unrecorded-IsLate : (e : Error) → should_record_auth_failed e ≡ false → IsLate e
unfolding should_record_auth_failed
unrecorded-IsLate e h = elim (Bool-cases (is e canceled)) [
  | inl gone ↦ inl gone
  | inr live ↦ elim (Bool-cases (is e deadline_exceeded)) [
    | inl gone ↦ inr gone
    | inr early ↦ absurd (ground arith)
  ]
]

-- The event of a denied authentication, with the reason for its cause.
abbrev pub IsAuthFailed : Error → Event → Type 0
IsAuthFailed cause event =
    (event_type event ≡ auth_failed)
    × (event.policy.decision ≡ deny)
    × (event.details ≡ some (authentication_failed (auth_failure_reason cause)))

module _ {A : Type 0} (i : AuthContextInterceptor) (header : Header) (ctx : Context) where
  -- A refusal that was recorded, or whose event the log refused.
  abbrev pub IsRecorded : Error → World → Result A × World → Type 0
  IsRecorded cause w result =
      (event : Event) × IsAuthFailed cause event
      × (((i.audit_log ctx event ≡ none)
            × (result.0 ≡ err (handle_auth_interceptor_error cause))
            × (result.1.log ≡ w.log ++ event ∷ []))
          ⊎ ((x : Error) × (i.audit_log ctx event ≡ some x)
              × (result.0 ≡ err (handle_auth_audit_error x))
              × (result.1.log ≡ w.log)))

  -- Why a request is refused, and what the log has of it: the header has no proper bearer token, or
  -- the authenticator does not accept the token.
  pub data IsRefused (w : World) (result : Result A × World) : Type 0 where
    without_token :
        (cause : Error)
        → bearer_token_from_header header ≡ err cause
        → IsRecorded cause w result
        → IsRefused w result
    rejected :
        (cause : Error) (token : Bytes)
        → bearer_token_from_header header ≡ ok token
        → i.authenticator.authenticate ctx token ≡ err cause
        → ¬ IsLate cause
        → IsRecorded cause w result
        → IsRefused w result
    late :
        (cause : Error) (token : Bytes)
        → bearer_token_from_header header ≡ ok token
        → i.authenticator.authenticate ctx token ≡ err cause
        → IsLate cause
        → result.0 ≡ err (handle_auth_interceptor_error cause)
        → result.1.log ≡ w.log
        → IsRefused w result

  abbrev pub IsPassed : (Context → Exec A) → World → Result A × World → Type 0
  IsPassed next w result =
      (token : Bytes) × (p : Principal) × (bearer_token_from_header header ≡ ok token)
      × (i.authenticator.authenticate ctx token ≡ ok p)
      × (result ≡ next (with_principal ctx p) (record w { readings = suc w.readings }))

  reject-IsRecorded :
      (cause : Error) (t : Time) (w : World) → IsRecorded cause w (reject i ctx cause t w)
  unfolding reject record_auth_failed auth_failure event_type auth_failed_event
  reject-IsRecorded cause t w =
      let event = auth_failed_event i ctx cause t (i.clock w.readings) in
      elim (Option-cases (i.audit_log ctx event)) [
        | inl accepted ↦
            rw (accepted, IsRecorded, reject, record_auth_failed)
              (event, (refl, refl, refl), inl (accepted, refl, refl))
        | inr (x, lost) ↦
            rw (lost, IsRecorded, reject, record_auth_failed)
              (event, (refl, refl, refl), inr (x, lost, refl, refl))
      ]

  recorded-IsOpaque :
      (cause : Error) (w : World) (result : Result A × World)
      → IsRecorded cause w result
      → (e : Error) × (result.0 ≡ err e) × IsOpaque e
  recorded-IsOpaque cause w result (event, is_failed, inl (accepted, answer, logged)) =
      (_, answer, handle_auth_interceptor_error-IsOpaque cause)
  recorded-IsOpaque cause w result (event, is_failed, inr (x, lost, answer, kept)) =
      (_, answer, plain _ _)

  refused-IsOpaque :
      (w : World) (result : Result A × World)
      → IsRefused w result
      → (e : Error) × (result.0 ≡ err e) × IsOpaque e
  refused-IsOpaque w result (without_token cause missing r) = recorded-IsOpaque cause w result r
  refused-IsOpaque w result (rejected cause token given bad early r) =
      recorded-IsOpaque cause w result r
  refused-IsOpaque w result (late cause token given bad is_late answer kept) =
      (_, answer, handle_auth_interceptor_error-IsOpaque cause)

  guarded :
      (next : Context → Exec A) (w : World)
      → IsPassed next w (wrap_unary i header next ctx w)
        ⊎ IsRefused w (wrap_unary i header next ctx w)
  unfolding wrap_unary
  guarded next w = elim (Result-cases (bearer_token_from_header header)) [
    | inr (e, missing) ↦
        inr
          (without_token e missing (rw (missing, IsRecorded, wrap_unary) (reject-IsRecorded e _ _)))
    | inl (token, given) ↦ elim (Result-cases (i.authenticator.authenticate ctx token)) [
      | inl (p, known) ↦ inl (token, p, given, known, rw (given, wrap_unary) (rw known refl))
      | inr (e, bad) ↦ elim (Bool-cases (should_record_auth_failed e)) [
        | inl told ↦ inr (
            rejected e token given bad (recorded-IsLate e told)
              (rw (given, IsRecorded, wrap_unary) (rw bad (rw told (reject-IsRecorded e _ _)))))
        | inr gone ↦ inr (
            late e token given bad (unrecorded-IsLate e gone)
              (rw (given, wrap_unary) (rw bad (rw gone refl)))
              (rw (given, wrap_unary) (rw bad (rw gone refl))))
      ]
    ]
  ]

  -- Either a request goes on, with the principal that the authenticator gave for its bearer token,
  -- and its result is that of what follows; or it is refused with an error that holds no cause. It is
  -- refused since its header has no proper bearer token or since the authenticator does not accept
  -- the token, and the event of a denied authentication, with the reason, is the only addition to
  -- the log; or the log refuses this event, and nothing is added, and the code is internal. Nothing
  -- is recorded exactly where the authenticator was cancelled or late.
  pub wrap_unary-IsGuarded :
      (next : Context → Exec A) (w : World)
      → IsPassed next w (wrap_unary i header next ctx w)
        ⊎ (IsRefused w (wrap_unary i header next ctx w)
            × ((e : Error) × ((wrap_unary i header next ctx w).0 ≡ err e) × IsOpaque e))
  wrap_unary-IsGuarded next w = elim (guarded next w) [
    | inl passed ↦ inl passed
    | inr refused ↦ inr (refused, refused-IsOpaque w _ refused)
  ]
