-- ===== src/VaultService/Lifecycle/Ends.antt =====
-- How a process of the vault service comes to its end, and with which result.
use canterbury.Base.{
  true, false, Bool, Option, none, some, List, [], ◌∷◌, ◌++◌, All, arith, ◌≡◌, refl, sym, ap, ◌∙◌,
  ◌↔◌, ◌⊎◌,
}
use canterbury.Time.{Duration}
use canterbury.Errors.{Error, Result, ok, err, wrap, is, server_closed}
use canterbury.VaultService.Lifecycle.{
  StaticHealth, Phase, listening, draining, ended, Event, signalled, listened, shut_down,
  listen_result, shutdown_grace_period, shutdown_result, Process, set_serving, set_not_serving,
  started, end_with, step, run,
}
use canterbury.VaultService.Lifecycle.Laws.{
  KeepsStatus, Announces, run-Announces, started-Announces,
}

-- An answer of `Shutdown`.
abbrev pub is_answer : Event → Bool
is_answer signalled = false
is_answer (listened e) = false
is_answer (shut_down answer) = true

-- A server that was closed has ended as it should.
abbrev pub IsListenResult : Error → Result (Unit {0}) → Type 0
IsListenResult e r =
    ((is e server_closed ≡ true) × (r ≡ ok tt))
    ⊎ ((is e server_closed ≡ false) × (r ≡ err (wrap "serve vault HTTP" e)))

abbrev pub IsShutdownResult : Option Error → Result (Unit {0}) → Type 0
IsShutdownResult answer r =
    ((answer ≡ none) × (r ≡ ok tt))
    ⊎ ((e : Error) × (answer ≡ some e) × (r ≡ err (wrap "shut down vault service" e)))

-- What decides about the end: an answer of `ListenAndServe` before any signal, or the first answer of
-- `Shutdown` after the first signal.
pub data EndsWith (events : List Event) (r : Result (Unit {0})) : Type 0 where
  by_server :
      (before after : List Event) (e : Error)
      → events ≡ before ++ listened e ∷ after
      → All (λ event. is_answer event ≡ true) before
      → IsListenResult e r
      → EndsWith events r
  by_signal :
      (before between after : List Event) (answer : Duration → Option Error)
      → events ≡ before ++ signalled ∷ (between ++ shut_down answer ∷ after)
      → All (λ event. is_answer event ≡ true) before
      → All (λ event. is_answer event ≡ false) between
      → IsShutdownResult (answer shutdown_grace_period) r
      → EndsWith events r

listen_result_iff : (e : Error) (r : Result (Unit {0})) → (listen_result e ≡ r) ↔ IsListenResult e r
unfolding listen_result
listen_result_iff e r = ground arith

shutdown_result_iff :
    (answer : Option Error) (r : Result (Unit {0}))
    → (shutdown_result answer ≡ r) ↔ IsShutdownResult answer r
unfolding shutdown_result
shutdown_result_iff answer r = ground arith

-- The result of a phase.
result_or : Result (Unit {0}) → Phase → Result (Unit {0})
result_or r listening = r
result_or r draining = r
result_or r (ended r') = r'

ended-inj : {r r' : Result (Unit {0})} → ended r ≡ ended r' → r ≡ r'
unfolding result_or
ended-inj {r} h = ap (result_or r) h

module _ (lib : StaticHealth) where
  at : Phase → lib.Statuses → Process lib
  at phase h = record { phase = phase; health = h }

  run-ended :
      (r : Result (Unit {0})) (h : lib.Statuses) (events : List Event)
      → (run lib (at (ended r) h) events).phase ≡ ended r
  unfolding run step at
  run-ended r h [] = refl
  run-ended r h (event ∷ events) = run-ended r h events

  run-drained :
      (between after : List Event) (answer : Duration → Option Error) (h : lib.Statuses)
      → All (λ event. is_answer event ≡ false) between
      → (run lib (at draining h) (between ++ shut_down answer ∷ after)).phase
        ≡ ended (shutdown_result (answer shutdown_grace_period))
  unfolding run step at end_with set_not_serving
  run-drained [] after answer h o =
      run-ended (shutdown_result (answer shutdown_grace_period)) _ after
  run-drained (signalled ∷ between) after answer h (a, o) = run-drained between after answer h o
  run-drained (listened e ∷ between) after answer h (a, o) = run-drained between after answer h o
  run-drained (shut_down x ∷ between) after answer h (a, o) = absurd (cc a)

  -- Answers of `Shutdown` before a signal are passed over.
  run-before :
      (before rest : List Event) (h : lib.Statuses)
      → All (λ event. is_answer event ≡ true) before
      → run lib (at listening h) (before ++ rest) ≡ run lib (at listening h) rest
  unfolding run step at
  run-before [] rest h o = refl
  run-before (signalled ∷ before) rest h (a, o) = absurd (cc a)
  run-before (listened e ∷ before) rest h (a, o) = absurd (cc a)
  run-before (shut_down x ∷ before) rest h (a, o) = run-before before rest h o

  run-of_EndsWith :
      (events : List Event) (r : Result (Unit {0})) (h : lib.Statuses)
      → EndsWith events r
      → (run lib (at listening h) events).phase ≡ ended r
  unfolding run step at end_with set_not_serving
  run-of_EndsWith events r h (by_server before after e split o result) =
      ap (λ es. (run lib (at listening h) es).phase) split
      ∙ ap (λ (p : Process lib). p.phase) (run-before before (listened e ∷ after) h o)
      ∙ run-ended (listen_result e) _ after
      ∙ ap ended ((listen_result_iff e r).1 result)
  run-of_EndsWith events r h (by_signal before between after answer split o o' result) =
      ap (λ es. (run lib (at listening h) es).phase) split
      ∙ ap (λ (p : Process lib). p.phase)
          (run-before before (signalled ∷ (between ++ shut_down answer ∷ after)) h o)
      ∙ run-drained between after answer _ o'
      ∙ ap ended ((shutdown_result_iff (answer shutdown_grace_period) r).1 result)

  -- A run of a draining process that ends has an answer of `Shutdown`.
  abbrev IsDrained : List Event → Result (Unit {0}) → Type 0
  IsDrained events r =
      (between : List Event) × (answer : Duration → Option Error) × (after : List Event) × (events
        ≡ between ++ shut_down answer ∷ after)
      × All (λ event. is_answer event ≡ false) between
      × IsShutdownResult (answer shutdown_grace_period) r

  drained :
      (events : List Event) (r : Result (Unit {0})) (h : lib.Statuses)
      → (run lib (at draining h) events).phase ≡ ended r
      → IsDrained events r
  unfolding run step at end_with set_not_serving
  drained [] r h e = absurd (cc e)
  drained (shut_down answer ∷ events) r h e = (
    [],
    answer,
    events,
    refl,
    tt,
    (shutdown_result_iff (answer shutdown_grace_period) r).0
        (ended-inj (sym (run-ended (shutdown_result (answer shutdown_grace_period)) _ events) ∙ e)),
  )
  drained (signalled ∷ events) r h e =
      let (between, answer, after, split, o, result) = drained events r h e in
      (signalled ∷ between, answer, after, ap (◌∷◌ signalled) split, (refl, o), result)
  drained (listened x ∷ events) r h e =
      let (between, answer, after, split, o, result) = drained events r h e in
      (listened x ∷ between, answer, after, ap (◌∷◌ (listened x)) split, (refl, o), result)

  later :
      (x : Duration → Option Error) (events : List Event) (r : Result (Unit {0}))
      → EndsWith events r
      → EndsWith (shut_down x ∷ events) r
  later x events r (by_server before after e split o result) =
      by_server (shut_down x ∷ before) after e (ap (◌∷◌ (shut_down x)) split) (refl, o) result
  later x events r (by_signal before between after answer split o o' result) =
      by_signal (shut_down x ∷ before) between after answer (ap (◌∷◌ (shut_down x)) split) (refl, o)
        o' result

  run-EndsWith :
      (events : List Event) (r : Result (Unit {0})) (h : lib.Statuses)
      → (run lib (at listening h) events).phase ≡ ended r
      → EndsWith events r
  unfolding run step at end_with set_not_serving
  run-EndsWith [] r h e = absurd (cc e)
  run-EndsWith (listened x ∷ events) r h e =
      by_server [] events x refl tt
        ((listen_result_iff x r).0 (ended-inj (sym (run-ended (listen_result x) _ events) ∙ e)))
  run-EndsWith (signalled ∷ events) r h e =
      let (between, answer, after, split, o, result) = drained events r _ e in
      by_signal [] between after answer (ap (◌∷◌ signalled) split) tt o result
  run-EndsWith (shut_down x ∷ events) r h e = later x events r (run-EndsWith events r h e)

  -- A process of the vault service ends, and with a given result, exactly when `ListenAndServe`
  -- answers before any signal or `Shutdown` answers after the first signal: without an error where
  -- the server was closed or shut down, and else with that error. `Shutdown` is given the grace
  -- period. Until then and after, whatever
  -- happens, the checker has the vault service as serving while the process listens, and as not
  -- serving otherwise. The checker keeps the status that was set for a name.
  pub started-EndsWith :
      (keeps : KeepsStatus lib) (events : List Event) (r : Result (Unit {0}))
      → Announces lib keeps (run lib (started lib) events)
        × (((run lib (started lib) events).phase ≡ ended r) ↔ EndsWith events r)
  unfolding started set_serving at
  started-EndsWith keeps events r = (
    run-Announces lib keeps (started lib) events (started-Announces lib keeps),
    ((λ e. run-EndsWith events r _ e), λ e. run-of_EndsWith events r _ e),
  )
