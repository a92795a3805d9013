-- ===== src/Health/Laws.antt =====
-- What the resolved status says of the checkers.
use canterbury.Base.{
  true, List, [], ◌∷◌, ◌++◌, ◌≡◌, ◌≢◌, ◌↔◌, ◌⊎◌, inl, inr, refl, sym, ap, subst, ◌∙◌, arith, All,
  Bool-cases, Memᴰ,
}
use canterbury.Errors.{Error, Result-cases, ok, err, err≢ok, ok-inj, unless-eq-ok}
use canterbury.Context.{Context}
use canterbury.Health.{
  Status, Checker, HealthResult, HealthService, status_unknown, status_serving, status_not_serving,
  is_not_serving, resolve, check_all, check,
}

serving≢not_serving : status_serving ≢ status_not_serving
serving≢not_serving e = cc

unknown≢serving : status_unknown ≢ status_serving
unknown≢serving e = cc

unknown≢not_serving : status_unknown ≢ status_not_serving
unknown≢not_serving e = cc

is_not_serving_sound : (s : Status) → is_not_serving s ≡ true → s ≡ status_not_serving
is_not_serving_sound status_not_serving h = refl
is_not_serving_sound status_unknown h = cc
is_not_serving_sound status_serving h = cc

resolve_iff :
    (a b : Status)
    → ((resolve a b ≡ status_serving) ↔ ((a ≡ status_serving) × (b ≡ status_serving)))
      × ((resolve a b ≡ status_not_serving) ↔ ((a ≡ status_not_serving) ⊎ (b ≡ status_not_serving)))
unfolding resolve
resolve_iff a b = ground arith

module _ (ctx : Context) where
  abbrev pub AllServing : List Checker → Type 0
  AllServing checkers = All (λ c. c ctx ≡ ok status_serving) checkers

  abbrev pub SomeNotServing : List Checker → Type 0
  SomeNotServing checkers = (c : Checker) × Memᴰ c checkers × (c ctx ≡ ok status_not_serving)

  -- What the loop returns from a status on.
  abbrev Tells : Status → List Checker → Status → Type 0
  Tells resolved checkers status =
      ((status ≡ status_serving) ↔ ((resolved ≡ status_serving) × AllServing checkers))
      × ((status ≡ status_not_serving)
          ↔ ((resolved ≡ status_not_serving) ⊎ SomeNotServing checkers))

  Tells-nil : (resolved : Status) → Tells resolved [] resolved
  Tells-nil resolved =
      (((λ e. (e, tt)), λ w. w.0), ((λ e. inl e), λ w. elim w [ inl e ↦ e | inr m ↦ elim m.1 [ ] ]))

  -- One more checker, after which the status is `next`.
  record Step (resolved next : Status) (c : Checker) : Type 0 where
    serving : (next ≡ status_serving) ↔ ((resolved ≡ status_serving) × (c ctx ≡ ok status_serving))
    not_serving :
        (next ≡ status_not_serving)
        ↔ ((resolved ≡ status_not_serving) ⊎ (c ctx ≡ ok status_not_serving))

  Tells-Step :
      (resolved next status : Status) (c : Checker) (cs : List Checker)
      → Step resolved next c
      → Tells next cs status
      → Tells resolved (c ∷ cs) status
  Tells-Step resolved next status c cs step (all_, some_) = (
    (
      (λ e. let (n, rest) = all_.0 e in let (r, one) = step.serving.0 n in (r, (one, rest))),
      λ w. all_.1 (step.serving.1 (w.0, w.1.0), w.1.1),
    ),
    (
      (λ e. elim (some_.0 e) [
        | inl n ↦ elim (step.not_serving.0 n) [
          | inl r ↦ inl r
          | inr one ↦ inr (c, Memᴰ.head refl, one)
        ]
        | inr (d, m, e') ↦ inr (d, Memᴰ.tail m, e')
      ]),
      λ w.
          some_.1
            (elim w [ inl r ↦ inl (step.not_serving.1 (inl r)) | inr (d, m, e') ↦ found d m e' ]),
    ),
  )
    where
      found :
          (d : Checker)
          → Memᴰ d (c ∷ cs)
          → d ctx ≡ ok status_not_serving
          → (next ≡ status_not_serving) ⊎ SomeNotServing cs
      found d (Memᴰ.head same) e =
          inl (
            step.not_serving.1
              (inr (subst (λ (k : Checker). k ctx ≡ ok status_not_serving) same e)))
      found d (Memᴰ.tail m) e = inr (d, m, e)

  -- A status that is not serving stays so.
  Tells-stop :
      (resolved : Status) (c : Checker) (cs : List Checker) {next : Status}
      → next ≡ status_not_serving
      → Step resolved next c
      → Tells resolved (c ∷ cs) next
  Tells-stop resolved c cs {next} stop step = (
    (
      (λ e. absurd (serving≢not_serving (sym e ∙ stop))),
      λ w. absurd (serving≢not_serving (sym (step.serving.1 (w.0, w.1.0)) ∙ stop)),
    ),
    (
      (λ e. elim (step.not_serving.0 e) [ inl r ↦ inl r | inr one ↦ inr (c, Memᴰ.head refl, one) ]),
      λ w. stop,
    ),
  )

  Step-ok :
      (resolved status : Status) (c : Checker)
      → c ctx ≡ ok status
      → Step resolved (resolve resolved status) c
  Step-ok resolved status c answer =
      let r = resolve_iff resolved status in
      record {
        serving = (
          (λ e. ((r.0.0 e).0, answer ∙ ap ok (r.0.0 e).1)),
          λ w. r.0.1 (w.0, ok-inj (sym answer ∙ w.1)),
        );
        not_serving = (
          (λ e. elim (r.1.0 e) [ inl a ↦ inl a | inr b ↦ inr (answer ∙ ap ok b) ]),
          λ w. r.1.1 (elim w [ inl a ↦ inl a | inr b ↦ inr (ok-inj (sym answer ∙ b)) ]),
        );
      }

  Step-err :
      (resolved : Status) (e : Error) (c : Checker)
      → c ctx ≡ err e
      → Step resolved (resolve resolved status_unknown) c
  Step-err resolved e c answer =
      let r = resolve_iff resolved status_unknown in
      record {
        serving =
            ((λ h. absurd (unknown≢serving (r.0.0 h).1)), λ w. absurd (err≢ok (sym answer ∙ w.1)));
        not_serving = (
          (λ h. elim (r.1.0 h) [ inl a ↦ inl a | inr b ↦ absurd (unknown≢not_serving b) ]),
          λ w. r.1.1 (elim w [ inl a ↦ inl a | inr b ↦ absurd (err≢ok (sym answer ∙ b)) ]),
        );
      }

  check_all-Tells :
      (cs : List Checker) (resolved : Status) (errors : List Error) {result : HealthResult}
      → check_all ctx resolved errors cs ≡ ok result
      → Tells resolved cs result.status
  unfolding check_all
  check_all-Tells [] resolved errors h =
      subst (λ (r : HealthResult). Tells resolved [] r.status) (ok-inj h) (Tells-nil resolved)
  check_all-Tells (c ∷ cs) resolved errors h =
      let h' = unless-eq-ok ctx.cancelled _ h in
      elim (Result-cases (c ctx)) [
        | inr (e, answer) ↦
            Tells-Step resolved (resolve resolved status_unknown) _ c cs
              (Step-err resolved e c answer)
              (check_all-Tells cs (resolve resolved status_unknown) (errors ++ e ∷ [])
                (rw answer at h'))
        | inl (status, answer) ↦ elim (Bool-cases (is_not_serving (resolve resolved status))) [
          | inl stops ↦
              subst (λ (r : HealthResult). Tells resolved (c ∷ cs) r.status)
                (ok-inj (rw (answer, stops) at h'))
                (Tells-stop resolved c cs (is_not_serving_sound (resolve resolved status) stops)
                  (Step-ok resolved status c answer))
          | inr goes_on ↦
              Tells-Step resolved (resolve resolved status) _ c cs
                (Step-ok resolved status c answer)
                (check_all-Tells cs (resolve resolved status) errors (rw (answer, goes_on) at h'))
        ]
      ]

  -- A check that is not cancelled finds the service to be serving exactly when every checker says
  -- so, and not serving exactly when some checker says that, whatever the order of the checkers and
  -- even though the first of these ends the check; otherwise the status is unknown.
  pub check-resolved :
      (service : HealthService) {result : HealthResult}
      → check service ctx ≡ ok result
      → ((result.status ≡ status_serving) ↔ AllServing service.checkers)
        × ((result.status ≡ status_not_serving) ↔ SomeNotServing service.checkers)
  unfolding check
  check-resolved service h =
      let (all_, some_) = check_all-Tells service.checkers status_serving [] h in
      (
        ((λ e. (all_.0 e).1), λ w. all_.1 (refl, w)),
        (
          (λ e. elim (some_.0 e) [ inl r ↦ absurd (serving≢not_serving r) | inr m ↦ m ]),
          λ w. some_.1 (inr w),
        ),
      )
